-- ===== src/Release.antt =====
-- internal/commons/handle_release.go, utils.go and anvil.go, and the installation in
-- internal/devnet/anvil.go: Anvil is looked up, downloaded and extracted. The operating system, GitHub and
-- the readers of archives and of JSON are outside; the state is the files, the latest first. Directories are
-- not kept.
pub mod Again
pub mod Truncated
use cartesi_rollups_hl_graph.Base.{
  map, ℕ, Bool, true, false, not, ◌&&◌, ◌||◌, Option, none, some, List, [], ◌∷◌, ◌++◌, Text, codes,
  text_eq, find, if◌then◌else◌, Result, ok, err, bind, not_found, bad_request, not_implemented,
  Exec, ◌>>=◌, ◌>>◌, pure, raise, lift,
}

pub record ReleaseAsset : Type 0 where
  pub tag : Text
  pub asset_id : ℕ
  pub filename : Text
  pub url : Text
  pub path : Text

pub record AnvilConfig : Type 0 where
  pub asset_anvil : ReleaseAsset
  pub latest_check : Text

-- The reader of a .zip tells directories from the rest, which it treats as regular files.
-- An entry of an archive: what is written of a file, and whether it was all that there is of it.
pub data Kind : Type 0 where
  directory regular other : Kind

pub record Entry : Type 0 where
  pub name : Text
  pub kind : Kind
  pub written : Text
  pub copied : Result (Unit {0})

-- `refuses` are the paths that cannot be written or made.
pub record Machine : Type 0 where
  pub goos : Text
  pub goarch : Text
  pub temp_dir : Text
  pub now : Text
  pub anvil_in_path : Bool
  pub join : Text → Text → Text
  pub dir : Text → Text
  pub refuses : Text → Bool
  pub marshal : AnvilConfig → Text
  pub unmarshal : Text → Result AnvilConfig
  pub untar : Text → Result (List (Result Entry))
  pub unzip : Text → Result (List Entry)

pub record GithubAsset : Type 0 where
  pub id : ℕ
  pub name : Text
  pub browser_download_url : Text

-- The tag and the assets of a release; an answer to a download, which may be a redirection.
pub record Remote : Type 0 where
  pub list_releases : Result (List (Text × List GithubAsset))
  pub download_release_asset : ℕ → Result (Text × Result Text)
  pub get : Text → Result (Result Text)

abbrev pub Files : Type 0
Files = List (Text × Text)

unfoldable pub stat : Text → Files → Option Text
stat path [] = none
stat path ((name, content) ∷ files) = if text_eq name path then some content else stat path files

abbrev pub is_there : Option Text → Bool
is_there none = false
is_there (some content) = true

abbrev pub is_empty : Text → Bool
is_empty [] = true
is_empty (c ∷ s) = false

-- `strings.HasSuffix`
unfoldable pub has_suffix : Text → Text → Bool
has_suffix [] suffix = is_empty suffix
has_suffix (c ∷ s) suffix = text_eq (c ∷ s) suffix || has_suffix s suffix

module _ (m : Machine) where
  unfoldable pub format_name_release : (goos goarch : Text) → Text
  format_name_release goos goarch =
      if text_eq goos (codes "windows")
      then codes "foundry_nightly_win32_" ++ (goarch ++ codes ".zip")
      else codes "foundry_nightly_" ++ (goos ++ (codes "_" ++ (goarch ++ codes ".tar.gz")))

  unfoldable pub platform_compatible : Result Text
  unfolding format_name_release
  platform_compatible =
      if text_eq m.goarch (codes "amd64") && text_eq m.goos (codes "windows")
        || ((text_eq m.goarch (codes "amd64") || text_eq m.goarch (codes "arm64"))
            && (text_eq m.goos (codes "linux") || text_eq m.goos (codes "darwin")))
      then ok (format_name_release m.goos m.goarch)
      else err not_implemented

  -- A file that is opened with O_TRUNC and written.
  unfoldable pub write_file : Text → Text → Exec Files (Unit {0})
  write_file path content files =
      if m.refuses path then (err bad_request, files) else (ok tt, (path, content) ∷ files)

  unfoldable pub mkdir_all : Text → Exec Files (Unit {0})
  mkdir_all path = if m.refuses path then raise bad_request else pure tt

  abbrev pub config_file : Text
  config_file = m.join m.temp_dir (codes "anvil.nonodo.json")

  abbrev loaded : Option Text → Result (Option AnvilConfig)
  loaded none = ok none
  loaded (some content) = bind (m.unmarshal content) λ config. ok (some config)

  unfoldable pub try_load_config : Exec Files (Option AnvilConfig)
  try_load_config files = (loaded (stat config_file files), files)

  abbrev pub new_anvil_config : ReleaseAsset → AnvilConfig
  new_anvil_config a = record { asset_anvil = a; latest_check = m.now }

  -- SaveConfigOnDefaultLocation
  unfoldable pub save_config : ReleaseAsset → Exec Files (Unit {0})
  unfolding write_file
  save_config a = write_file config_file (m.marshal (new_anvil_config a))

  -- One entry of a .tar.gz, and one of a .zip.
  unfoldable pub extract_entry : (dest : Text) → Entry → Kind → Exec Files (Unit {0})
  unfolding mkdir_all write_file
  extract_entry dest e directory = mkdir_all (m.join dest e.name)
  extract_entry dest e regular = do
    mkdir_all (m.dir (m.join dest e.name))
    write_file (m.join dest e.name) e.written
    lift e.copied
  extract_entry dest e other = raise not_implemented

  unfoldable pub extract_tar : (dest : Text) → List (Result Entry) → Exec Files (Unit {0})
  unfolding extract_entry
  extract_tar dest [] = pure tt
  extract_tar dest (e ∷ entries) =
      (lift e >>= λ e. extract_entry dest e e.kind) >> extract_tar dest entries

  unfoldable pub extract_zip : (dest : Text) → List Entry → Exec Files (Unit {0})
  unfolding extract_entry
  extract_zip dest [] = pure tt
  extract_zip dest (e ∷ entries) = extract_entry dest e e.kind >> extract_zip dest entries

  unfoldable pub extract_asset : (archive filename dest : Text) → Exec Files (Unit {0})
  unfolding extract_tar extract_zip has_suffix
  extract_asset archive filename dest =
      if has_suffix filename (codes ".zip")
      then (lift (m.unzip archive) >>= extract_zip dest)
      else if has_suffix filename (codes ".tar.gz")
      then (lift (m.untar archive) >>= extract_tar dest)
      else raise bad_request

  abbrev pub anvil_exec : ReleaseAsset → Text
  anvil_exec release =
      m.join (m.join m.temp_dir release.tag)
        (if text_eq m.goos (codes "windows") then codes "anvil.exe" else codes "anvil")

  module _ (w : Remote) where
    -- The body, behind the redirection if there is one.
    abbrev pub body_of : Text × Result Text → Result Text
    body_of ([], body) = body
    body_of (c ∷ url, body) = bind (w.get (c ∷ url)) λ body. body

    unfoldable pub fetch_and_extract : ReleaseAsset → Exec Files Text
    unfolding extract_asset
    fetch_and_extract release = do
      answer ← lift (w.download_release_asset release.asset_id)
      archive ← lift (body_of answer)
      extract_asset archive release.filename (m.join m.temp_dir release.tag)
      pure (anvil_exec release)

    unfoldable pub download_asset : ReleaseAsset → Exec Files Text
    unfolding mkdir_all fetch_and_extract
    download_asset release = mkdir_all (m.join m.temp_dir release.tag) >> λ files.
        if is_there (stat (anvil_exec release) files)
        then (ok (anvil_exec release), files)
        else fetch_and_extract release files

    release_asset : Text → GithubAsset → ReleaseAsset
    release_asset tag a = record {
      tag = tag;
      asset_id = a.id;
      filename = a.name;
      url = a.browser_download_url;
      path = [];
    }

    assets_of : List (Text × List GithubAsset) → List ReleaseAsset
    unfolding release_asset
    assets_of [] = []
    assets_of ((tag, assets) ∷ releases) = map (release_asset tag) assets ++ assets_of releases

    unfoldable pub get_assets_from_last_release : Result (List ReleaseAsset)
    unfolding assets_of
    get_assets_from_last_release = bind w.list_releases λ releases. ok (assets_of releases)

    unfoldable pub save_target : Option ReleaseAsset → Exec Files ReleaseAsset
    unfolding save_config
    save_target none = raise not_found
    save_target (some a) = save_config a >> pure a

    unfoldable pub from_config : Text → Option AnvilConfig → Exec Files ReleaseAsset
    unfolding save_target get_assets_from_last_release
    from_config p (some config) = pure config.asset_anvil
    from_config p none = lift get_assets_from_last_release >>= λ assets.
        save_target (find (λ a. text_eq a.filename p) assets)

    unfoldable pub get_latest_release_compatible : Exec Files ReleaseAsset
    unfolding platform_compatible try_load_config from_config
    get_latest_release_compatible = do
      p ← lift platform_compatible
      config ← try_load_config
      from_config p config

    unfoldable pub install_anvil : Exec Files Text
    unfolding get_latest_release_compatible download_asset
    install_anvil = get_latest_release_compatible >>= download_asset

    unfoldable pub check_anvil_and_install : Exec Files Text
    unfolding install_anvil
    check_anvil_and_install = if m.anvil_in_path then pure (codes "anvil") else install_anvil
