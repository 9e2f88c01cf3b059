-- ===== src/Tests/Release.antt =====
-- Installations on a small machine, whose archives are all the same.
use cartesi_rollups_hl_graph.Base.{
  ℕ, ◌≡◌, refl, ap, false, ok, err, some, [], ◌∷◌, ◌++◌, Text, codes, text_eq, length, take, drop,
  take-append, drop-append, bad_request, canceled,
}
use cartesi_rollups_hl_graph.Release.{
  ReleaseAsset, AnvilConfig, Machine, Remote, regular, Files, stat, has_suffix, config_file,
  anvil_exec, install_anvil, get_latest_release_compatible, download_asset, platform_compatible,
  try_load_config, from_config, save_target, save_config, write_file, mkdir_all,
  get_assets_from_last_release, fetch_and_extract, extract_asset, extract_tar, extract_entry,
  format_name_release,
}
use cartesi_rollups_hl_graph.Release.Again.{install_anvil-again}
use cartesi_rollups_hl_graph.Release.Truncated.{download_asset_truncated}

-- A text behind its length.
put : Text → Text → Text
put t rest = length t ∷ t ++ rest

front : Text → Text
front [] = []
front (n ∷ s) = take n s

behind : Text → Text
behind [] = []
behind (n ∷ s) = drop n s

front-put : (t rest : Text) → front (put t rest) ≡ t
unfolding put front
front-put t rest = take-append (length t) t rest refl

behind-put : (t rest : Text) → behind (put t rest) ≡ rest
unfolding put behind
behind-put t rest = drop-append (length t) t rest refl

abbrev first_code : Text → ℕ
first_code [] = 0
first_code (c ∷ s) = c

marshaled : AnvilConfig → Text
marshaled c =
    let a = c.asset_anvil in
    put a.tag (put a.filename (put a.url (put a.path (put c.latest_check (a.asset_id ∷ [])))))

abbrev unmarshaled : Text → AnvilConfig
unmarshaled s = record {
  asset_anvil = record {
    tag = front s;
    asset_id = first_code (behind (behind (behind (behind (behind s)))));
    filename = front (behind s);
    url = front (behind (behind s));
    path = front (behind (behind (behind s)));
  };
  latest_check = front (behind (behind (behind (behind s))));
}

unmarshaled-marshaled : (c : AnvilConfig) → unmarshaled (marshaled c) ≡ c
unfolding marshaled
unmarshaled-marshaled c = simp (front-put, behind-put)

abbrev machine : Machine
machine = record {
  goos = codes "linux";
  goarch = codes "amd64";
  temp_dir = 1 ∷ [];
  now = 2 ∷ [];
  anvil_in_path = false;
  join = λ dir name. dir ++ 47 ∷ name;
  dir = λ path. path;
  refuses = λ path. false;
  marshal = marshaled;
  unmarshal = λ s. ok (unmarshaled s);
  untar = λ s.
      ok (
        ok (record { name = codes "anvil"; kind = regular; written = 8 ∷ []; copied = ok tt })
        ∷ []);
  unzip = λ s. err bad_request;
}

-- The archive breaks off.
abbrev breaking : Machine
breaking = record machine {
  untar = λ s. ok (
      ok (record { name = codes "anvil"; kind = regular; written = 8 ∷ []; copied = err canceled })
      ∷ []);
}

abbrev github : Remote
github = record {
  list_releases = ok (
      (
        3 ∷ [],
        record {
          id = 4;
          name = codes "foundry_nightly_linux_amd64.tar.gz";
          browser_download_url = [];
        }
            ∷ [],
      )
      ∷ []);
  download_release_asset = λ i. ok ([], ok (5 ∷ []));
  get = λ url. err canceled;
}

abbrev nothing : Remote
nothing = record {
  list_releases = err canceled;
  download_release_asset = λ i. err canceled;
  get = λ url. err canceled;
}

abbrev asset : ReleaseAsset
asset = record {
  tag = 3 ∷ [];
  asset_id = 4;
  filename = codes "foundry_nightly_linux_amd64.tar.gz";
  url = [];
  path = [];
}

abbrev installed : Files
installed =
    (anvil_exec machine asset, 8 ∷ [])
    ∷ (config_file machine, marshaled (record { asset_anvil = asset; latest_check = 2 ∷ [] }))
    ∷ []

installs : install_anvil machine github [] ≡ (ok (anvil_exec machine asset), installed)
unfolding install_anvil get_latest_release_compatible platform_compatible format_name_release
    try_load_config from_config get_assets_from_last_release save_target save_config write_file
    mkdir_all download_asset fetch_and_extract extract_asset extract_tar extract_entry has_suffix
    stat text_eq
installs = refl

install_anvil-again_example :
    install_anvil machine nothing (install_anvil machine github []).1
    ≡ (ok (anvil_exec machine asset), (install_anvil machine github []).1)
unfolding install_anvil get_latest_release_compatible platform_compatible format_name_release
    try_load_config from_config get_assets_from_last_release save_target save_config write_file
    mkdir_all download_asset fetch_and_extract extract_asset extract_tar extract_entry has_suffix
    stat text_eq
install_anvil-again_example =
    install_anvil-again machine github nothing [] (anvil_exec machine asset)
      (λ c. ap ok (unmarshaled-marshaled c)) refl refl refl

download_asset_truncated_example :
    ((download_asset breaking github asset []).0 ≡ err canceled)
    × (stat (anvil_exec breaking asset) (download_asset breaking github asset []).1 ≡ some (8 ∷ []))
    × (download_asset breaking nothing asset (download_asset breaking github asset []).1
        ≡ (ok (anvil_exec breaking asset), (download_asset breaking github asset []).1))
unfolding stat has_suffix text_eq
download_asset_truncated_example =
    download_asset_truncated breaking github nothing asset [] (5 ∷ []) (8 ∷ []) (codes "anvil")
      canceled [] (λ path. refl) refl refl refl refl refl refl
