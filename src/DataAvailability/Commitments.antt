-- ===== src/DataAvailability/Commitments.antt =====
-- internal/dataavailability/celestia_commits.go: the search for the event that commits to a height, in
-- windows of blocks from the head of the chain backwards. The block numbers are of type uint64, whose
-- subtraction wraps around. The loop has fuel here, and nothing is returned when that runs out.
use cartesi_rollups_hl_graph.Base.{
  ℕ, zero, suc, ◌+◌, ◌-◌, ◌%◌, ◌^◌, Bool, not, ◌&&◌, Option, none, some, List, find, ltb,
  if◌then◌else◌, ℤ, pos, negsuc, ltb_ℤ, Result, ok, err, bind, not_found, Text,
}

abbrev pub max_filter_range : ℕ
max_filter_range = 10000

-- `BlobstreamXDataCommitmentStored`; `block` is the number of the block that holds the event.
pub record DataCommitment : Type 0 where
  pub proof_nonce : ℕ
  pub start_block : ℕ
  pub end_block : ℕ
  pub data_commitment : Text
  pub block : ℕ

-- `FilterDataCommitmentStored` of the contract: the events of the blocks from the first to the second
-- number, as far as the iterator delivers them.
abbrev pub Filter : Type 0
Filter = ℕ → ℕ → Result (List DataCommitment)

-- a - b of type uint64
abbrev pub sub_uint64 : ℕ → ℕ → ℕ
sub_uint64 a b = (a + 2 ^ 64 - b) % 2 ^ 64

-- `int64(n)` of a uint64
abbrev pub to_int64 : ℕ → ℤ
to_int64 n = if ltb n (2 ^ 63) then pos n else negsuc (2 ^ 64 - n - 1)

unfoldable pub covers : ℤ → DataCommitment → Bool
covers height e = not (ltb_ℤ height (to_int64 e.start_block)) && ltb_ℤ height (to_int64 e.end_block)

-- The start of the window that ends at `end`.
unfoldable pub window_start : ℕ → ℕ → ℕ
window_start low end =
    let start = sub_uint64 end max_filter_range in if ltb start low then low else start

module _ (filter : Filter) (height : ℤ) where
  unfoldable pub find_matching_data_commitment : ℕ → ℕ → Result (Option DataCommitment)
  find_matching_data_commitment start end =
      bind (filter start end) (λ events. ok (find (covers height) events))

  abbrev pub scanned :
      Result (Option DataCommitment)
      → Option (Result DataCommitment)
      → Option (Result DataCommitment)
  scanned (err e) rest = some (err e)
  scanned (ok (some e)) rest = some (ok e)
  scanned (ok none) rest = rest

  -- The loop, down to the block `low`.
  unfoldable pub scan : ℕ → ℕ → ℕ → Option (Result DataCommitment)
  scan low zero end = none
  scan low (suc fuel) end =
      let rest = scan low fuel (sub_uint64 end max_filter_range) in
      if ltb low end
      then scanned (find_matching_data_commitment (window_start low end) end) rest
      else some (err not_found)

-- `head - blocks`, after the bound of `blocks` by the head
unfoldable pub range_start : ℕ → ℕ → ℕ
range_start head blocks = head - (if ltb head blocks then head else blocks)

-- GetDataCommitment, whose contract and head are what go-ethereum gives.
unfoldable pub get_data_commitment :
    Result Filter → Result ℕ → ℤ → ℕ → ℕ → Option (Result DataCommitment)
get_data_commitment (err e) head height blocks fuel = some (err e)
get_data_commitment (ok filter) (err e) height blocks fuel = some (err e)
get_data_commitment (ok filter) (ok head) height blocks fuel =
    scan filter height (range_start head blocks) fuel head
