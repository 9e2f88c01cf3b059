-- ===== src/Echo/Waiting.antt =====
-- internal/echoapp/echoapp.go with internal/model: the inputs that wait, and what stays to be done for them
-- when one of them is concluded.
use mathlib.Core.Path.{subst}
use cartesi_rollups_hl_graph.Base.{
  ℕ, ◌+◌, ◌≤◌, ◌<◌, ◌≡◌, Bool, true, false, none, some, List, [], ◌∷◌, ◌++◌, Text, AllBytes, codes,
  find, ◌==◌, if◌then◌else◌, All, Some, first, later, arith, Bool-cases, inl, inr,
}
use cartesi_rollups_hl_graph.External.{External, IsAddress}
use cartesi_rollups_hl_graph.Data.{AdvanceInput, status_accepted}
use cartesi_rollups_hl_graph.Store.{Tables, InputRow}
use cartesi_rollups_hl_graph.Store.Table.{update}
use cartesi_rollups_hl_graph.Store.Table.Laws.{lookup-append}
use cartesi_rollups_hl_graph.Repository.Voucher
use cartesi_rollups_hl_graph.Repository.Notice
use cartesi_rollups_hl_graph.Repository.Report as Reports
use cartesi_rollups_hl_graph.Repository.Input
use cartesi_rollups_hl_graph.Rollup.Dispatch.{is_waiting}
use cartesi_rollups_hl_graph.Echo.Stored.{IsFresh, with_outputs, without_outputs}
use cartesi_rollups_hl_graph.Echo.Answers.{echo_voucher, echo_notice, echo_report}

unfoldable pub waiting : List InputRow → ℕ
waiting [] = 0
waiting (r ∷ rs) = (if is_waiting r then 1 else 0) + waiting rs

pub waiting-zero : (rs : List InputRow) → waiting rs ≡ 0 → All (λ r. is_waiting r ≡ false) rs
unfolding waiting
waiting-zero [] h = tt
waiting-zero (r ∷ rs) h = (ground arith, waiting-zero rs (ground arith))

module _ ⦃x : External⦄ (i : AdvanceInput) where
  -- The rows with the index of the input are concluded as accepted.
  abbrev pub concluded : List InputRow → List InputRow
  concluded =
      update (λ b. b.index == i.index) (Input.conclude (record i { status = status_accepted }))

  waiting-concluded : (rs : List InputRow) → waiting (concluded rs) ≤ waiting rs
  unfolding waiting update
  waiting-concluded [] = omega arith
  waiting-concluded (r ∷ rs) = ground (arith, waiting-concluded rs)

  pub waiting-concluded_lt :
      (r : InputRow) (rs : List InputRow)
      → Some (λ b. b ≡ r) rs
      → is_waiting r ≡ true
      → r.index ≡ i.index
      → waiting (concluded rs) < waiting rs
  unfolding waiting update
  waiting-concluded_lt r [] s w h = elim s [ ]
  waiting-concluded_lt r (b ∷ rs) (first e) w h = ground (arith, waiting-concluded rs)
  waiting-concluded_lt r (b ∷ rs) (later s) w h = ground (arith, waiting-concluded_lt r rs s w h)

find-append-none :
    {A : Type 0} (p : A → Bool) (rows : List A) (a : A)
    → find p rows ≡ none
    → p a ≡ false
    → find p (rows ++ a ∷ []) ≡ none
find-append-none p [] a h k = ground arith
find-append-none p (b ∷ rest) a h k = ground (arith, find-append-none p rest a)

-- What the application needs of the input of a row, to answer it and to have its answer stored.
pub record IsAnswerable ⦃x : External⦄ (t : Tables) (r : InputRow) : Type 0 where
  pub fresh : IsFresh r.index t
  pub sender : IsAddress (x.hex_to_address r.msg_sender)
  pub bytes : AllBytes (x.hex_to_bytes r.payload)
  pub noticed : Text
  pub decoded :
      x.hexutil_decode (x.hexutil_encode (x.hex_to_bytes r.payload) ++ codes "ff") ≡ some noticed

-- Every input that waits can be answered.
abbrev pub AllAnswerable : ⦃x : External⦄ → Tables → List InputRow → Type 0
AllAnswerable t = All (λ r. is_waiting r ≡ true → IsAnswerable t r)

pub AllAnswerable-some :
    ⦃x : External⦄ (t : Tables) (r : InputRow) (rows : List InputRow)
    → AllAnswerable t rows
    → Some (λ b. b ≡ r) rows
    → is_waiting r ≡ true
    → IsAnswerable t r
AllAnswerable-some t r [] h s w = elim s [ ]
AllAnswerable-some t r (b ∷ rows) (f, h) (first e) w =
    subst (λ c. is_waiting c ≡ true → IsAnswerable t c) e f w
AllAnswerable-some t r (b ∷ rows) (f, h) (later s) w = AllAnswerable-some t r rows h s w

module _ ⦃x : External⦄ (i : AdvanceInput) (n : Text) (t : Tables) where
  -- The tables once the answer to the input is stored.
  abbrev pub answered : Tables
  answered =
      with_outputs i (echo_voucher (without_outputs i) i) (echo_notice (without_outputs i) n)
        (echo_report (without_outputs i) i.payload) t

  IsFresh-answered : (j : ℕ) → (i.index == j) ≡ false → IsFresh j t → IsFresh j answered
  unfolding Voucher.to_row Notice.to_row Reports.to_row
  IsFresh-answered j other (vf, vk, nf, nk, rk) = (
    find-append-none (Voucher.is_of_app j 0) t.vouchers _ vf (ground arith),
    rw (lookup-append Voucher.row_key (j, 0) _ t.vouchers, vk) (ground arith),
    find-append-none (Notice.is_of_app j 0) t.notices _ nf (ground arith),
    rw (lookup-append Notice.row_key (j, 0) _ t.notices, nk) (ground arith),
    rw (lookup-append Reports.row_key (j, 0) _ t.reports, rk) (ground arith),
  )

  IsAnswerable-answered :
      (b : InputRow) → (i.index == b.index) ≡ false → IsAnswerable t b → IsAnswerable answered b
  IsAnswerable-answered b other a = record {
    fresh = IsFresh-answered b.index other a.fresh;
    sender = a.sender;
    bytes = a.bytes;
    noticed = a.noticed;
    decoded = a.decoded;
  }

  pub AllAnswerable-answered :
      (rows : List InputRow) → AllAnswerable t rows → AllAnswerable answered (concluded i rows)
  unfolding update
  AllAnswerable-answered [] h = tt
  AllAnswerable-answered (b ∷ rows) (f, h) = (
    elim (Bool-cases (b.index == i.index)) [
      | inl e ↦ rw e (λ w. cc)
      | inr e ↦ rw e (λ w. IsAnswerable-answered b (ground arith) (f w))
    ],
    AllAnswerable-answered rows h,
  )
