-- ===== src/Release/Again.antt =====
-- internal/commons/handle_release.go: Anvil is installed once.
use cartesi_rollups_hl_graph.Base.{
  ◌≡◌, refl, sym, ap, ◌∙◌, true, false, Bool-cases, inl, inr, Option, none, some, Text, text_eq,
  text_eq_refl, find, ok, Result-cases, lift, >>=-eq-ok, arith,
}
use cartesi_rollups_hl_graph.Release.{
  ReleaseAsset, AnvilConfig, Machine, Remote, Files, stat, is_there, platform_compatible,
  write_file, mkdir_all, config_file, loaded, try_load_config, new_anvil_config, save_config,
  anvil_exec, extract_asset, body_of, fetch_and_extract, download_asset,
  get_assets_from_last_release, save_target, from_config, get_latest_release_compatible,
  install_anvil,
}

module _ (m : Machine) where
  -- The configuration holds the asset.
  abbrev Remembers : Files → ReleaseAsset → Type 0
  Remembers files a =
      (c : AnvilConfig) × (loaded m (stat (config_file m) files) ≡ ok (some c))
      × (c.asset_anvil ≡ a)

  -- What is remembered is what the next call returns.
  get_latest-Remembers :
      (w : Remote) (p : Text) (files : Files) (a : ReleaseAsset)
      → platform_compatible m ≡ ok p
      → Remembers files a
      → get_latest_release_compatible m w files ≡ (ok a, files)
  unfolding get_latest_release_compatible try_load_config from_config
  get_latest-Remembers w p files a e (c, h, k) = rw (e, h, k) refl

  pub download_asset_there :
      (w : Remote) (a : ReleaseAsset) (files : Files)
      → m.refuses (m.join m.temp_dir a.tag) ≡ false
      → is_there (stat (anvil_exec m a) files) ≡ true
      → download_asset m w a files ≡ (ok (anvil_exec m a), files)
  unfolding download_asset mkdir_all
  download_asset_there w a files e h = rw (e, h) refl

  module _ (law : (c : AnvilConfig) → m.unmarshal (m.marshal c) ≡ ok c) (w : Remote) where
    save_target-Remembers :
        (o : Option ReleaseAsset) (files : Files) (a : ReleaseAsset)
        → (save_target m w o files).0 ≡ ok a
        → Remembers (save_target m w o files).1 a
    unfolding save_target save_config write_file stat
    save_target-Remembers none files a h = absurd (grind arith)
    save_target-Remembers (some b) files a h = elim (Bool-cases (m.refuses (config_file m))) [
      | inl e ↦ let k = rw e at h in absurd (grind (arith, k))
      | inr e ↦
          let k : ok b ≡ ok a = rw e at h in
          (
            new_anvil_config m b,
            rw (e, text_eq_refl (config_file m), law (new_anvil_config m b)) refl,
            ground arith,
          )
    ]

    remembered :
        (p : Text) (files : Files) (a : ReleaseAsset) (c : Option AnvilConfig)
        → loaded m (stat (config_file m) files) ≡ ok c
        → (from_config m w p c files).0 ≡ ok a
        → Remembers (from_config m w p c files).1 a
    unfolding from_config
    remembered p files a (some c) e h = (c, e, ground arith)
    remembered p files a none e h =
        let (assets, read, made, same) =
          >>=-eq-ok (lift (get_assets_from_last_release m w)) _ files h in
        rw same (save_target-Remembers (find (λ a. text_eq a.filename p) assets) files a made)

    get_latest-remembered :
        (files : Files) (a : ReleaseAsset)
        → (get_latest_release_compatible m w files).0 ≡ ok a
        → (p : Text) × (platform_compatible m ≡ ok p)
          × Remembers (get_latest_release_compatible m w files).1 a
    unfolding get_latest_release_compatible try_load_config
    get_latest-remembered files a h = elim (Result-cases (platform_compatible m)) [
      | inr (r, e) ↦ let k = rw e at h in absurd (grind (arith, k))
      | inl (p, e) ↦ elim (Result-cases (loaded m (stat (config_file m) files))) [
        | inr (r, f) ↦ let k = rw (e, f) at h in absurd (grind (arith, k))
        | inl (c, f) ↦ let k = rw (e, f) at h in (p, e, rw (e, f) (remembered p files a c f k))
      ]
    ]

  fetched :
      (w : Remote) (a : ReleaseAsset) (files : Files) (location : Text)
      → (fetch_and_extract m w a files).0 ≡ ok location
      → location ≡ anvil_exec m a
  unfolding fetch_and_extract
  fetched w a files location h =
      let (answer, e, first, _) =
        >>=-eq-ok (lift (w.download_release_asset a.asset_id)) _ files h in
      let (archive, f, second, _) = >>=-eq-ok (lift (body_of m w answer)) _ files first in
      let (u, g, third, _) =
        >>=-eq-ok (extract_asset m archive a.filename (m.join m.temp_dir a.tag)) _ files second in
      ground arith

  -- A download that succeeds returns the path of the executable, and its directory can be made.
  downloaded :
      (w : Remote) (a : ReleaseAsset) (files : Files) (location : Text)
      → (download_asset m w a files).0 ≡ ok location
      → (m.refuses (m.join m.temp_dir a.tag) ≡ false) × (location ≡ anvil_exec m a)
  unfolding download_asset mkdir_all fetch_and_extract
  downloaded w a files location h = elim (Bool-cases (m.refuses (m.join m.temp_dir a.tag))) [
    | inl e ↦ let k = rw e at h in absurd (grind (arith, k))
    | inr e ↦ elim (Bool-cases (is_there (stat (anvil_exec m a) files))) [
      | inl t ↦ let k : ok (anvil_exec m a) ≡ ok location = rw (e, t) at h in (e, ground arith)
      | inr t ↦
          let k : (fetch_and_extract m w a files).0 ≡ ok location = rw (e, t) at h in
          (e, fetched w a files location k)
    ]
  ]

  installed_again :
      (w : Remote) (p : Text) (files : Files) (a : ReleaseAsset)
      → platform_compatible m ≡ ok p
      → Remembers files a
      → m.refuses (m.join m.temp_dir a.tag) ≡ false
      → is_there (stat (anvil_exec m a) files) ≡ true
      → install_anvil m w files ≡ (ok (anvil_exec m a), files)
  unfolding install_anvil
  installed_again w p files a e known made there =
      rw (get_latest-Remembers w p files a e known, download_asset_there w a files made there) refl

-- If an installation succeeds, its archive had the executable in its place and left the configuration
-- alone, and JSON is read back as it was written, then every later installation, whatever GitHub
-- answers by then, gives the same location and changes no file.
pub install_anvil-again :
    (m : Machine) (w later_w : Remote) (files : Files) (location : Text)
    → ((c : AnvilConfig) → m.unmarshal (m.marshal c) ≡ ok c)
    → (install_anvil m w files).0 ≡ ok location
    → is_there (stat location (install_anvil m w files).1) ≡ true
    → stat (config_file m) (install_anvil m w files).1
      ≡ stat (config_file m) (get_latest_release_compatible m w files).1
    → install_anvil m later_w (install_anvil m w files).1
      ≡ (ok location, (install_anvil m w files).1)
unfolding install_anvil
install_anvil-again m w later_w files location law h there kept =
    let (a, found, made, same) = >>=-eq-ok (get_latest_release_compatible m w) _ files h in
    let (p, e, (c, known, k)) = get_latest-remembered m law w files a found in
    let (made_root, at) = downloaded m w a _ location made in
    let after : Files = (install_anvil m w files).1 in
    let again : Remembers m after a = (c, ap (loaded m) kept ∙ known, k) in
    let there_too : is_there (stat (anvil_exec m a) after) ≡ true =
      ap (λ l. is_there (stat l after)) (sym at) ∙ there in
    installed_again m later_w p after a e again made_root there_too
    ∙ ap (λ l. (ok l, after)) (sym at)
