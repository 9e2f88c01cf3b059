-- ===== src/Repository/Synchronizer.antt =====
-- internal/convenience/repository/synchronizer_repository.go. The identifier is a serial number, so
-- the last row has the greatest.
use cartesi_rollups_hl_graph.Base.{
  ℕ, Option, none, some, List, [], ◌∷◌, ◌++◌, length, ok, Exec, ◌>>◌, pure,
}
use cartesi_rollups_hl_graph.Store.{Db, Context, query, exec}
use cartesi_rollups_hl_graph.Data.{SynchronizerFetch}

unfoldable pub create : Context → SynchronizerFetch → Exec Db SynchronizerFetch
create ctx fetch = do
  exec ctx (λ t. ok (record t { fetches = t.fetches ++ fetch ∷ [] }))
  pure fetch

unfoldable pub count : Exec Db ℕ
count = query (λ t. ok (length t.fetches))

unfoldable pub last : List SynchronizerFetch → Option SynchronizerFetch
last [] = none
last (f ∷ []) = some f
last (f ∷ g ∷ fs) = last (g ∷ fs)

-- ORDER BY id DESC LIMIT 1
unfoldable pub get_last_fetched : Exec Db (Option SynchronizerFetch)
unfolding last
get_last_fetched = query (λ t. ok (last t.fetches))
