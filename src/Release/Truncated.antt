-- ===== src/Release/Truncated.antt =====
-- internal/commons/handle_release.go, utils.go: an extraction that breaks off.
use cartesi_rollups_hl_graph.Base.{
  ◌≡◌, refl, ap, true, false, some, List, [], ◌∷◌, Text, codes, text_eq_refl, Error, Result, ok,
  err,
}
use cartesi_rollups_hl_graph.Release.Again.{download_asset_there}
use cartesi_rollups_hl_graph.Release.{
  ReleaseAsset, Machine, Remote, Entry, regular, Files, stat, is_there, write_file, mkdir_all,
  extract_entry, extract_tar, extract_asset, has_suffix, anvil_exec, fetch_and_extract,
  download_asset,
}

stat_written :
    (path content : Text) (files : Files) → stat path ((path, content) ∷ files) ≡ some content
unfolding stat
stat_written path content files = rw (text_eq_refl path) refl

-- A machine that lets everything be written downloads a .tar.gz whose first entry is the executable, which
-- is not there yet; the copy of the entry breaks off. The download fails, but the part that was copied
-- stays, and the next download, whatever GitHub answers by then, takes it for the executable.
pub download_asset_truncated :
    (m : Machine) (w later_w : Remote) (a : ReleaseAsset) (files : Files) (archive part name : Text)
    (e : Error) (more : List (Result Entry))
    → ((path : Text) → m.refuses path ≡ false)
    → is_there (stat (anvil_exec m a) files) ≡ false
    → w.download_release_asset a.asset_id ≡ ok ([], ok archive)
    → has_suffix a.filename (codes ".zip") ≡ false
    → has_suffix a.filename (codes ".tar.gz") ≡ true
    → m.untar archive
      ≡ ok (ok (record { name = name; kind = regular; written = part; copied = err e }) ∷ more)
    → m.join (m.join m.temp_dir a.tag) name ≡ anvil_exec m a
    → ((download_asset m w a files).0 ≡ err e)
      × (stat (anvil_exec m a) (download_asset m w a files).1 ≡ some part)
      × (download_asset m later_w a (download_asset m w a files).1
          ≡ (ok (anvil_exec m a), (download_asset m w a files).1))
unfolding download_asset fetch_and_extract extract_asset extract_tar extract_entry mkdir_all
    write_file stat
download_asset_truncated m w later_w a files archive part name e more writable absent answer zip tar
      read at =
    let broken : download_asset m w a files ≡ (err e, (anvil_exec m a, part) ∷ files) =
      rw
        (
          writable (m.join m.temp_dir a.tag),
          absent,
          answer,
          zip,
          tar,
          read,
          at,
          writable (m.dir (anvil_exec m a)),
          writable (anvil_exec m a),
        )
        refl in
    let stays : stat (anvil_exec m a) ((anvil_exec m a, part) ∷ files) ≡ some part =
      stat_written (anvil_exec m a) part files in
    rw broken (
      refl,
      stays,
      download_asset_there m later_w a ((anvil_exec m a, part) ∷ files)
          (writable (m.join m.temp_dir a.tag)) (ap is_there stays),
    )
