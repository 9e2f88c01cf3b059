-- ===== src/DataAvailability/Wrap.antt =====
-- internal/dataavailability/celestia_commits.go: the search on a chain that is shorter than a window.
use cartesi_rollups_hl_graph.Base.{
  ℕ, suc, ◌+◌, ◌-◌, ◌≤◌, ◌<◌, ◌^◌, ◌≡◌, refl, true, some, ltb, ℤ, Error, ok, err, arith,
}
use cartesi_rollups_hl_graph.DataAvailability.Commitments.{
  max_filter_range, Filter, window_start, find_matching_data_commitment, scan, get_data_commitment,
}
use cartesi_rollups_hl_graph.DataAvailability.Scan.{range_start-eq}

module _ (height : ℤ) (filter : Filter) where
  -- The first window of a search on a short chain.
  first_window :
      (head blocks n : ℕ) (e : Error)
      → 0 < head
      → head < max_filter_range
      → head ≤ blocks
      → filter (2 ^ 64 + head - max_filter_range) head ≡ err e
      → get_data_commitment (ok filter) (ok head) height blocks (suc n) ≡ some (err e)
  unfolding get_data_commitment scan window_start find_matching_data_commitment
  first_window head blocks n e low high short refused =
      let z : head - blocks ≡ 0 = omega arith in
      let start : window_start 0 head ≡ 2 ^ 64 + head - max_filter_range = ground arith in
      let t : ltb 0 head ≡ true = ground arith in
      rw (range_start-eq head blocks, z, t, start, refused) refl

  -- On a chain with a head from 1 to 9,999, a search of at least the blocks up to the head starts with a
  -- window that begins at 2^64 + head - 10000, behind its end, since the subtraction of the window's size
  -- wraps around. If the node refuses each window that begins behind its end with an error,
  -- `GetDataCommitment` returns its error for that one, whatever events the chain holds.
  pub get_data_commitment_short :
      ((start end : ℕ) → end < start → (e : Error) × (filter start end ≡ err e))
      → (head blocks n : ℕ) → 0 < head
      → head < max_filter_range
      → head ≤ blocks
      → (e : Error) × (filter (2 ^ 64 + head - max_filter_range) head ≡ err e)
        × (get_data_commitment (ok filter) (ok head) height blocks (suc n) ≡ some (err e))
  get_data_commitment_short refuses head blocks n low high short =
      let (e, refused) = refuses (2 ^ 64 + head - max_filter_range) head (omega arith) in
      (e, refused, first_window head blocks n e low high short refused)
