-- ===== src/DataAvailability/Returns.antt =====
-- internal/dataavailability/celestia_commits.go: the search for a commitment ends.
use cartesi_rollups_hl_graph.Base.{
  ℕ, zero, suc, ◌+◌, ◌-◌, ◌*◌, ◌≤◌, ◌<◌, ◌^◌, ◌≡◌, refl, false, Option, none, some, ltb, ℤ, Result,
  ok, err, not_found, arith, inl, inr, Bool-cases,
}
use cartesi_rollups_hl_graph.DataAvailability.Commitments.{
  max_filter_range, DataCommitment, Filter, scan, scanned, get_data_commitment, sub_uint64,
}
use cartesi_rollups_hl_graph.DataAvailability.Scan.{range_start-eq, sub_uint64-eq}

module _ (height : ℤ) (filter : Filter) (low : ℕ) where
  -- A round that returns, or leaves it to the next ones.
  scanned-returns :
      (r : Result (Option DataCommitment)) (rest : Option (Result DataCommitment))
      → (c : Result DataCommitment) × (rest ≡ some c)
      → (c : Result DataCommitment) × (scanned filter height r rest ≡ some c)
  scanned-returns (ok none) rest later = later
  scanned-returns (ok (some c)) rest later = (ok c, refl)
  scanned-returns (err e) rest later = (err e, refl)

  scan-returns :
      (k end : ℕ)
      → 9999 ≤ low
      → end < 2 ^ 64
      → end ≤ low + k * max_filter_range
      → (r : Result DataCommitment) × (scan filter height low (suc k) end ≡ some r)
  unfolding scan
  scan-returns zero end far b enough =
      let f : ltb low end ≡ false = ground arith in (err not_found, rw f refl)
  scan-returns (suc k) end far b enough = elim (Bool-cases (ltb low end)) [
    | inl t ↦
        let next : sub_uint64 end max_filter_range ≡ end - max_filter_range =
          sub_uint64-eq end (ground arith) b in
        let later = scan-returns k (end - max_filter_range) far (omega arith) (omega arith) in
        rw (t, next) (scanned-returns _ _ later)
    | inr f ↦ (err not_found, rw f refl)
  ]

-- Whatever the node answers to the windows, errors included, `GetDataCommitment` returns: on a chain
-- whose head is at least 9,999 blocks behind the range of the search, after at most one round for each
-- window of 10,000 blocks and one more.
pub get_data_commitment-returns :
    (height : ℤ) (filter : Filter) (head blocks k : ℕ)
    → blocks + 9999 ≤ head
    → head < 2 ^ 64
    → blocks ≤ k * max_filter_range
    → (r : Result DataCommitment) × (get_data_commitment (ok filter) (ok head) height blocks (suc k)
        ≡ some r)
unfolding get_data_commitment
get_data_commitment-returns height filter head blocks k far b enough =
    rw (range_start-eq head blocks)
      (scan-returns height filter (head - blocks) k head (omega arith) b (omega arith))
