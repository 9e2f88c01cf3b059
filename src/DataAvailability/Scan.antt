-- ===== src/DataAvailability/Scan.antt =====
-- internal/dataavailability/celestia_commits.go: what the search finds, on a chain that is longer than
-- the range and a window.
use cartesi_rollups_hl_graph.Base.{
  All-map, ℕ, zero, suc, ◌+◌, ◌-◌, ◌*◌, ◌≤◌, ◌<◌, ◌^◌, ◌≡◌, refl, Bool, true, false, ◌&&◌, none,
  some, List, [], ◌∷◌, select, find, ltb, leb, ℤ, Result, ok, err, not_found, arith, inl, inr, ◌⊎◌,
  Bool-cases, Option-cases, find-eq-none, find-eq-some, All, Some,
}
use cartesi_rollups_hl_graph.DataAvailability.Commitments.{
  max_filter_range, DataCommitment, Filter, covers, find_matching_data_commitment, window_start,
  scan, get_data_commitment, sub_uint64, range_start,
}

abbrev pub in_window : ℕ → ℕ → DataCommitment → Bool
in_window start end e = leb start e.block && leb e.block end

-- The node holds the events of the list, and delivers those of a window of the chain.
abbrev pub Delivers : List DataCommitment → ℕ → Filter → Type 0
Delivers events head filter =
    (start end : ℕ)
    → start ≤ end
    → end ≤ head
    → filter start end ≡ ok (select (in_window start end) events)

-- What the search from `head` down to `low` gives: an event of the range that covers the height, such
-- that no other one of the range is newer by more than a window; or nothing, and none of the range
-- covers it.
pub data Found (height : ℤ) (events : List DataCommitment) (low head : ℕ)
    : Result DataCommitment → Type 0 where
  found :
      {e : DataCommitment}
      → covers height e ≡ true
      → Some (λ b. b ≡ e) events
      → low ≤ e.block
      → e.block ≤ head
      → All
          (λ b. covers height b ≡ true → b.block ≤ head → b.block ≤ e.block + max_filter_range)
          events
      → Found height events low head (ok e)
  missing :
      All (λ b. low ≤ b.block → b.block ≤ head → covers height b ≡ false) events
      → Found height events low head (err not_found)

module _ {A : Type 0} {P Q : A → Type 0} where
  All-both :
      {R : A → Type 0}
      → ((a : A) → P a → Q a → R a)
      → (xs : List A) → All P xs
      → All Q xs
      → All R xs
  All-both f [] h k = tt
  All-both f (a ∷ rest) (h, hs) (k, ks) = (f a h k, All-both f rest hs ks)

find-select :
    {A : Type 0} (p q : A → Bool) (xs : List A) → find q (select p xs) ≡ find (λ a. p a && q a) xs
find-select p q [] = refl
find-select p q (a ∷ rest) = ground (arith, find-select p q rest)

pub range_start-eq : (head blocks : ℕ) → range_start head blocks ≡ head - blocks
unfolding range_start
range_start-eq head blocks = ground arith

window_start-eq :
    (low end : ℕ)
    → 9999 ≤ low
    → low < end
    → end < 2 ^ 64
    → (low ≤ window_start low end)
      × (end ≤ window_start low end + max_filter_range)
      × (window_start low end ≤ end)
      × ((window_start low end ≡ low) ⊎ (window_start low end + max_filter_range ≡ end))
unfolding window_start
window_start-eq low end h lt b = ground arith

pub sub_uint64-eq :
    (end : ℕ)
    → max_filter_range ≤ end
    → end < 2 ^ 64
    → sub_uint64 end max_filter_range ≡ end - max_filter_range
sub_uint64-eq end h b = omega arith

module _ (height : ℤ) (events : List DataCommitment) (filter : Filter) (low head : ℕ)
    (delivers : Delivers events head filter) where
  -- No event of the range from the block `bound` on covers the height.
  abbrev NoneFrom : ℕ → Type 0
  NoneFrom bound =
      All (λ b. covers height b ≡ true → low ≤ b.block → b.block ≤ head → b.block < bound) events

  find_matching-select :
      (start end : ℕ)
      → start ≤ end
      → end ≤ head
      → find_matching_data_commitment filter height start end
        ≡ ok (find (λ b. in_window start end b && covers height b) events)
  unfolding find_matching_data_commitment
  find_matching-select start end forward inside =
      rw
        (
          delivers start end forward inside,
          find-select (in_window start end) (covers height) events,
        )
        refl

  -- What the search gives, from where no event that is newer covers the height.
  abbrev Result-Found : ℕ → ℕ → Type 0
  Result-Found fuel end =
      (r : Result DataCommitment) × (scan filter height low fuel end ≡ some r)
      × Found height events low head r

  NoneFrom-missing :
      (bound : ℕ) → bound ≤ low → NoneFrom bound → Found height events low head (err not_found)
  NoneFrom-missing bound le newer = missing (
      All-map
        (λ b n above below. elim (Bool-cases (covers height b)) [
          | inl e ↦ absurd (omega (arith, n e above below))
          | inr e ↦ e
        ])
        events newer)

  -- The window holds no event that covers the height.
  window-NoneFrom :
      (bound end : ℕ)
      → bound ≤ suc end
      → NoneFrom bound
      → find (λ b. in_window (window_start low end) end b && covers height b) events ≡ none
      → NoneFrom (window_start low end)
  window-NoneFrom bound end le newer e =
      All-both (λ b n out c above below. ground (arith, n c above below)) events newer
        (find-eq-none (λ b. in_window (window_start low end) end b && covers height b) events e)

  window-found :
      (bound end : ℕ) (c : DataCommitment)
      → bound ≤ suc end
      → end ≤ head
      → low ≤ window_start low end
      → end ≤ window_start low end + max_filter_range
      → NoneFrom bound
      → find (λ b. in_window (window_start low end) end b && covers height b) events ≡ some c
      → Found height events low head (ok c)
  window-found bound end c le inside at_low near newer e =
      let (t, there) =
        find-eq-some (λ b. in_window (window_start low end) end b && covers height b) events c e in
      found (ground arith) there (ground arith) (ground arith)
        (All-map (λ b n covered below. ground (arith, n covered)) events newer)

  scan-hit :
      (fuel end : ℕ) (c : DataCommitment)
      → low < end
      → window_start low end ≤ end
      → end ≤ head
      → find (λ b. in_window (window_start low end) end b && covers height b) events ≡ some c
      → scan filter height low (suc fuel) end ≡ some (ok c)
  unfolding scan
  scan-hit fuel end c lt forward inside e =
      let t : ltb low end ≡ true = ground arith in
      rw (t, find_matching-select (window_start low end) end forward inside, e) refl

  scan-miss :
      (fuel end : ℕ)
      → low < end
      → window_start low end ≤ end
      → end ≤ head
      → find (λ b. in_window (window_start low end) end b && covers height b) events ≡ none
      → scan filter height low (suc fuel) end
        ≡ scan filter height low fuel (sub_uint64 end max_filter_range)
  unfolding scan
  scan-miss fuel end lt forward inside e =
      let t : ltb low end ≡ true = ground arith in
      rw (t, find_matching-select (window_start low end) end forward inside, e) refl

  scan-stop :
      (fuel end : ℕ) → end ≤ low → scan filter height low (suc fuel) end ≡ some (err not_found)
  unfolding scan
  scan-stop fuel end le = let f : ltb low end ≡ false = ground arith in rw f refl

  scan-Found :
      (k bound end : ℕ)
      → 9999 ≤ low
      → end ≤ head
      → head < 2 ^ 64
      → end ≤ low + k * max_filter_range
      → (low < end → bound ≤ suc end)
      → (end ≤ low → bound ≤ low)
      → NoneFrom bound
      → Result-Found (suc k) end
  scan-Found zero bound end far le b enough more stop newer = (
    err not_found,
    scan-stop zero end (omega arith),
    NoneFrom-missing bound (stop (omega arith)) newer,
  )
  scan-Found (suc k) bound end far le b enough more stop newer = elim (Bool-cases (ltb low end)) [
    | inl t ↦
        let lt : low < end = ground arith in
        let (at_low, near, forward, start) = window_start-eq low end far lt (omega arith) in
        elim (Option-cases
          (find (λ e. in_window (window_start low end) end e && covers height e) events)) [
            | inl e ↦
                rw
                  (
                    scan-miss (suc k) end lt forward le e,
                    sub_uint64-eq end (omega arith) (omega arith),
                  )
                  (scan-Found k (window_start low end) (end - max_filter_range) far (omega arith) b
                    (omega arith) (λ p. ground (arith, start)) (λ p. ground (arith, start))
                    (window-NoneFrom bound end (more lt) newer e))
            | inr (c, e) ↦ (
              ok c,
              scan-hit (suc k) end c lt forward le e,
              window-found bound end c (more lt) le at_low near newer e,
            )
          ]
    | inr f ↦
        let ge : end ≤ low = ground arith in
        (err not_found, scan-stop (suc k) end ge, NoneFrom-missing bound (stop ge) newer)
  ]

All-intro : {A : Type 0} {P : A → Type 0} → ((a : A) → P a) → (xs : List A) → All P xs
All-intro f [] = tt
All-intro f (a ∷ rest) = (f a, All-intro f rest)

-- A search of at least one block, on a chain whose head is at least 9,999 blocks behind the range of the
-- search, where the node delivers the events of every window that lies on the chain: `GetDataCommitment`
-- returns after at most one round for each window of 10,000 blocks and one more. The result is an event
-- of the range that covers the height, and no other such event is newer by more than a window; or an
-- error, and no event of the range covers the height.
pub get_data_commitment-Found :
    (height : ℤ) (events : List DataCommitment) (filter : Filter) (head blocks k : ℕ)
    → Delivers events head filter
    → 0 < blocks
    → blocks + 9999 ≤ head
    → head < 2 ^ 64
    → blocks ≤ k * max_filter_range
    → (r : Result DataCommitment) × (get_data_commitment (ok filter) (ok head) height blocks (suc k)
        ≡ some r)
      × Found height events (head - blocks) head r
unfolding get_data_commitment
get_data_commitment-Found height events filter head blocks k delivers some_blocks far b enough =
    rw (range_start-eq head blocks) (
      scan-Found height events filter (head - blocks) head delivers k (suc head) head (omega arith)
        (omega arith) b (omega arith) (λ p. omega arith) (λ p. absurd (omega arith))
        (All-intro (λ e c above below. omega arith) events))
