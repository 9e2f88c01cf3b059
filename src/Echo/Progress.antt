-- ===== src/Echo/Progress.antt =====
-- internal/echoapp/echoapp.go with internal/model and internal/rollup: the application works through the
-- inputs that wait.
use cartesi_rollups_hl_graph.Echo.Answers.{
  in_advance, echoed, echo_voucher, echo_notice, echo_report, echo_round-advance,
}
use cartesi_rollups_hl_graph.Base.{
  ℕ, zero, suc, ◌≤◌, ◌≡◌, ◌≢◌, refl, true, false, Option, none, some, List, [], ◌∷◌, ◌++◌, Text,
  find, ◌==◌, All, arith, Bool-cases, Option-cases, inl, inr, ok,
}
use cartesi_rollups_hl_graph.External.{External}
use cartesi_rollups_hl_graph.Data.{AdvanceInput, InspectInput, status_accepted}
use cartesi_rollups_hl_graph.Store.{Tables, InputRow, calm, query}
use cartesi_rollups_hl_graph.Store.Table.{Key, lookup, update, key_eq}
use cartesi_rollups_hl_graph.Store.Table.Laws.{lookup-append, key_eq_refl}
use cartesi_rollups_hl_graph.Store.Table.Order.{find-order_by, find-order_by-none}
use cartesi_rollups_hl_graph.Repository.Voucher
use cartesi_rollups_hl_graph.Repository.Notice
use cartesi_rollups_hl_graph.Repository.Report as Reports
use cartesi_rollups_hl_graph.Repository.Input
use cartesi_rollups_hl_graph.Rollup.State.{
  NonodoModel, RollupsState, finish, new_advance, advance, settle,
}
use cartesi_rollups_hl_graph.Rollup.Operations.{
  advance_input, sequencer_finish_and_get_next, get_next, start_inspect, start_advance,
  first_unprocessed,
}
use cartesi_rollups_hl_graph.Rollup.Dispatch.{is_waiting}
use cartesi_rollups_hl_graph.Http.{Others}
use cartesi_rollups_hl_graph.Echo.{echo}
use cartesi_rollups_hl_graph.Echo.Node.{node}
use cartesi_rollups_hl_graph.Echo.Stored.{IsFresh, without_outputs, finish_advance-single}
use cartesi_rollups_hl_graph.Echo.Waiting.{
  waiting, waiting-zero, waiting-concluded_lt, concluded, AllAnswerable, AllAnswerable-some,
  AllAnswerable-answered, answered,
}

-- A node with a decoder and a report repository, over a database that refuses no statement.
abbrev pub serving : List InspectInput → RollupsState → Tables → Option Tables → NonodoModel
serving inspects state t tx = record {
  inspects = inspects;
  state = state;
  has_decoder = true;
  has_reports = true;
  db = calm t tx;
}

-- Some voucher, some notice and some report are the output 0 of the input.
abbrev pub HasOutputs : Tables → ℕ → Type 0
HasOutputs t j =
    (lookup Voucher.row_key (j, 0) t.vouchers ≢ none)
    × (lookup Notice.row_key (j, 0) t.notices ≢ none)
    × (lookup Reports.row_key (j, 0) t.reports ≢ none)

module _ {R : Type 0} (key : R → Key) (k : Key) (r : R) (rs : List R) where
  lookup-append-ne_none : lookup key k rs ≢ none → lookup key k (rs ++ r ∷ []) ≢ none
  lookup-append-ne_none h = ground (arith, lookup-append key k r rs)

  lookup-append-own : key_eq (key r) k ≡ true → lookup key k (rs ++ r ∷ []) ≢ none
  lookup-append-own h = ground (arith, lookup-append key k r rs)

module _ ⦃x : External⦄ (i : AdvanceInput) (n : Text) (t : Tables) where
  HasOutputs-answered : (j : ℕ) → HasOutputs t j → HasOutputs (answered i n t) j
  HasOutputs-answered j (v, m, r) = (
    lookup-append-ne_none Voucher.row_key (j, 0) _ t.vouchers v,
    lookup-append-ne_none Notice.row_key (j, 0) _ t.notices m,
    lookup-append-ne_none Reports.row_key (j, 0) _ t.reports r,
  )

  HasOutputs-own : HasOutputs (answered i n t) i.index
  unfolding Voucher.to_row Notice.to_row Reports.to_row
  HasOutputs-own = (
    lookup-append-own Voucher.row_key (i.index, 0) _ t.vouchers (key_eq_refl (i.index, 0)),
    lookup-append-own Notice.row_key (i.index, 0) _ t.notices (key_eq_refl (i.index, 0)),
    lookup-append-own Reports.row_key (i.index, 0) _ t.reports (key_eq_refl (i.index, 0)),
  )

  -- What holds of the rows that still wait, and of the one that was answered, holds of all.
  All-concluded :
      (u : Tables) (rows : List InputRow)
      → HasOutputs u i.index
      → All (λ r. is_waiting r ≡ true → HasOutputs u r.index) (concluded i rows)
      → All (λ r. is_waiting r ≡ true → HasOutputs u r.index) rows
  unfolding update
  All-concluded u [] own h = tt
  All-concluded u (b ∷ rows) own (f, h) = (
    elim (Bool-cases (b.index == i.index)) [
      | inl e ↦ let same : b.index ≡ i.index = ground arith in λ w. rw same own
      | inr e ↦ rw e at f
    ],
    All-concluded u rows own h,
  )

module _ ⦃x : External⦄ (others : Others) (inspects : List InspectInput) (tx : Option Tables) where
  handed_out :
      (m : NonodoModel) (s : RollupsState) (t : Tables) (r : InputRow)
      → first_unprocessed 0 inspects ≡ none
      → finish status_accepted m ≡ (ok tt, serving inspects s t tx)
      → find is_waiting (Input.sorted t.inputs) ≡ some r
      → sequencer_finish_and_get_next true m ≡ (
        ok (some (advance_input (Input.parse_input r))),
        serving inspects (new_advance (Input.parse_input r)) t tx,
      )
  unfolding sequencer_finish_and_get_next get_next start_inspect start_advance Input.find_by_status
      query
  handed_out m s t r none_waits done there = rw (done, none_waits, there) refl

  -- The node that is left behind the answers to all inputs that waited in `t`.
  abbrev pub Served : ℕ → NonodoModel → Tables → Type 0
  Served n m t =
      (j : ℕ) × (k : NonodoModel) × (s : RollupsState) × (u : Tables) × (j ≤ n)
      × (echo (node others) j m ≡ (ok tt, k))
      × (finish status_accepted k ≡ (ok tt, serving inspects s u tx))
      × All (λ r. is_waiting r ≡ false) u.inputs
      × All (λ r. is_waiting r ≡ true → HasOutputs u r.index) t.inputs
      × ((i : ℕ) → HasOutputs t i → HasOutputs u i)

  none_left :
      (rows : List InputRow) (u : Tables)
      → All (λ r. is_waiting r ≡ false) rows
      → All (λ r. is_waiting r ≡ true → HasOutputs u r.index) rows
  none_left [] u h = tt
  none_left (r ∷ rows) u (f, h) = (λ w. cc, none_left rows u h)

  finish-serving :
      (i : AdvanceInput) (n : Text) (t : Tables)
      → IsFresh i.index t
      → finish status_accepted
          (in_advance (serving inspects (new_advance i) t tx) (echoed (without_outputs i) i n))
        ≡ (
          ok tt,
          serving inspects
              (advance (settle status_accepted (echoed (without_outputs i) i n)))
              (answered i n t)
              tx,
        )
  unfolding finish
  finish-serving i n t (vf, vk, nf, nk, rk) =
      let a = without_outputs i in
      let done =
        finish_advance-single i (echo_voucher a i) (echo_notice a n) (echo_report a i.payload) t tx
          vf vk nf nk rk in
      rw done refl

  -- One round, and what is served behind it.
  answer_one :
      (n : ℕ) (m : NonodoModel) (s : RollupsState) (t : Tables) (r : InputRow)
      → first_unprocessed 0 inspects ≡ none
      → finish status_accepted m ≡ (ok tt, serving inspects s t tx)
      → AllAnswerable t t.inputs
      → waiting t.inputs ≤ suc n
      → find is_waiting (Input.sorted t.inputs) ≡ some r
      → ((k : NonodoModel) (q : RollupsState) (u : Tables)
          → finish status_accepted k ≡ (ok tt, serving inspects q u tx)
          → AllAnswerable u u.inputs
          → waiting u.inputs ≤ n
          → Served n k u)
      → Served (suc n) m t
  unfolding echo Input.parse_input new_advance
  answer_one n m s t r quiet done able few found serve =
      let (waits, there, _) = find-order_by (λ b. b.index) is_waiting t.inputs r found in
      let e = AllAnswerable-some t r t.inputs able there waits in
      let i : AdvanceInput = Input.parse_input r in
      let b = echoed (without_outputs i) i e.noticed in
      let k = in_advance (serving inspects (new_advance i) t tx) b in
      let round =
        echo_round-advance others i e.noticed m (serving inspects (new_advance i) t tx)
          (without_outputs i) (handed_out m s t r quiet done found) refl e.sender e.bytes
          e.decoded in
      let fewer : waiting (concluded i t.inputs) ≤ n =
        omega (arith, few, waiting-concluded_lt i r t.inputs there waits refl) in
      let (j, l, q, u, jn, run, last, left, own, kept) =
        serve k (advance (settle status_accepted b)) (answered i e.noticed t)
          (finish-serving i e.noticed t e.fresh)
          (AllAnswerable-answered i e.noticed t t.inputs able) fewer in
      (
        suc j,
        l,
        q,
        u,
        omega (arith, jn),
        rw round run,
        last,
        left,
        All-concluded i e.noticed t u t.inputs (kept i.index (HasOutputs-own i e.noticed t)) own,
        λ p h. kept p (HasOutputs-answered i e.noticed t p h),
      )

  -- Where the engine refuses no statement, no inspect waits, every input that waits can be answered, and at
  -- most `n` inputs wait once the state of the node is finished: after at most `n` rounds, none of which
  -- returns an error, and with the last of them finished as accepted, no input waits; every input that
  -- waited has a voucher, a notice and a report as its output 0; and an input that had them still has.
  pub echo-Served :
      (n : ℕ) (m : NonodoModel) (s : RollupsState) (t : Tables)
      → first_unprocessed 0 inspects ≡ none
      → finish status_accepted m ≡ (ok tt, serving inspects s t tx)
      → AllAnswerable t t.inputs
      → waiting t.inputs ≤ n
      → Served n m t
  unfolding echo
  echo-Served zero m s t quiet done able few =
      let left = waiting-zero t.inputs (omega arith) in
      (0, m, s, t, omega arith, refl, done, left, none_left t.inputs t left, λ i h. h)
  echo-Served (suc n) m s t quiet done able few =
      elim (Option-cases (find is_waiting (Input.sorted t.inputs))) [
        | inl none_found ↦
            let left = find-order_by-none (λ r. r.index) is_waiting t.inputs none_found in
            (0, m, s, t, omega arith, refl, done, left, none_left t.inputs t left, λ i h. h)
        | inr (r, found) ↦
            answer_one n m s t r quiet done able few found
              (λ k q u d a f. echo-Served n k q u quiet d a f)
      ]
