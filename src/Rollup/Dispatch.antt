-- ===== src/Rollup/Dispatch.antt =====
-- Which input `FinishAndGetNext` hands out, and the state it leaves.
use mathlib.Core.Path.{subst}
use mathlib.Core.Option
use cartesi_rollups_hl_graph.Base.{
  ℕ, suc, ◌+◌, ◌≤◌, ◌≡◌, refl, Bool, true, false, Option, none, some, List, [], ◌∷◌, find, ◌==◌,
  Bool-cases, inl, inr, Result, ok, err, db_fault, proceed, arith, All, Some,
}
use cartesi_rollups_hl_graph.External.{External}
use cartesi_rollups_hl_graph.Data.{status_unprocessed, InspectInput}
use cartesi_rollups_hl_graph.Store.{Db, InputRow, query, tick, next_fault}
use cartesi_rollups_hl_graph.Store.Table.Order.{find-order_by, find-order_by-none}
use cartesi_rollups_hl_graph.Repository.Input.{sorted, parse_input, find_by_status}
use cartesi_rollups_hl_graph.Rollup.State.{
  RollupsState, idle, NonodoModel, new_advance, new_inspect, finish,
}
use cartesi_rollups_hl_graph.Rollup.Operations.{
  NextInput, advance_input, inspect_input, first_unprocessed, start_advance, start_inspect,
  get_next, finish_and_get_next, status_of,
}

-- The inspect `i` stands at `at`, is not processed, and all before it are.
pub data FirstWaiting : List InspectInput → ℕ → InspectInput → Type 0 where
  now :
      {i : InspectInput} {rest : List InspectInput}
      → i.status ≡ status_unprocessed
      → FirstWaiting (i ∷ rest) 0 i
  behind :
      {i j : InspectInput} {rest : List InspectInput} {at : ℕ}
      → (j.status == status_unprocessed) ≡ false
      → FirstWaiting rest at i
      → FirstWaiting (j ∷ rest) (suc at) i

abbrev pub NoneWaiting : List InspectInput → Type 0
NoneWaiting = All (λ i. (i.status == status_unprocessed) ≡ false)

abbrev pub is_waiting : InputRow → Bool
is_waiting r = r.status == status_unprocessed

-- What may be handed out from the inspects and the stored inputs of a model, and its state then: the
-- first waiting inspect; if none is waiting, the waiting input with the least index; and nothing, in
-- the idle state, only if no input is waiting either.
pub data Handed ⦃x : External⦄ (m : NonodoModel) : Option NextInput → RollupsState → Type 0 where
  an_inspect :
      (at : ℕ) (i : InspectInput)
      → FirstWaiting m.inspects at i
      → Handed m (some (inspect_input i)) (new_inspect at i)
  an_advance :
      (r : InputRow)
      → NoneWaiting m.inspects
      → is_waiting r ≡ true
      → Some (λ b. b ≡ r) m.db.committed.inputs
      → All (λ b. is_waiting b ≡ true → r.index ≤ b.index) m.db.committed.inputs
      → Handed m (some (advance_input (parse_input r))) (new_advance (parse_input r))
  nothing :
      NoneWaiting m.inspects
      → All (λ b. is_waiting b ≡ false) m.db.committed.inputs
      → Handed m none idle

first_unprocessed-FirstWaiting :
    (n k : ℕ) (i : InspectInput) (ps : List InspectInput)
    → first_unprocessed n ps ≡ some (k, i)
    → (at : ℕ) × (k ≡ n + at) × FirstWaiting ps at i
unfolding first_unprocessed
first_unprocessed-FirstWaiting n k i [] h = cc
first_unprocessed-FirstWaiting n k i (p ∷ ps) h =
    elim (Bool-cases (p.status == status_unprocessed)) [
      | inl e ↦
          let same : p ≡ i = ground arith in
          (0, ground arith, subst (λ y. FirstWaiting (p ∷ ps) 0 y) same (now (ground arith)))
      | inr e ↦
          let (at, at_d, w) = first_unprocessed-FirstWaiting (suc n) k i ps (ground arith) in
          (suc at, omega (arith, at_d), behind e w)
    ]

first_unprocessed-NoneWaiting :
    (n : ℕ) (ps : List InspectInput) → first_unprocessed n ps ≡ none → NoneWaiting ps
unfolding first_unprocessed
first_unprocessed-NoneWaiting n [] h = tt
first_unprocessed-NoneWaiting n (p ∷ ps) h =
    (ground arith, first_unprocessed-NoneWaiting (suc n) ps (ground arith))

-- The outcome of the dispatch at a model: what is handed out, or, only if no inspect is waiting and the
-- engine refuses the next query, its error, and the state is as it was.
abbrev pub Outcome :
    ⦃x : External⦄ → NonodoModel → Result (Option NextInput) → RollupsState → Type 0
Outcome m (ok r) s = Handed m r s
Outcome m (err e) s =
    NoneWaiting m.inspects × (next_fault m.db.faults ≡ true) × (e ≡ db_fault) × (s ≡ m.state)

module _ ⦃x : External⦄ (m : NonodoModel) (idle_inspects : NoneWaiting m.inspects) where
  start_advance-Outcome :
      (o : Option InputRow) (db : Db)
      → find is_waiting (sorted m.db.committed.inputs) ≡ o
      → let c = start_advance (Option.map parse_input o) (record m { db = db }) in
        Outcome m c.0 c.1.state
  unfolding start_advance
  start_advance-Outcome none db e =
      nothing idle_inspects (find-order_by-none (λ r. r.index) is_waiting m.db.committed.inputs e)
  start_advance-Outcome (some r) db e =
      let (waiting, there, least) =
        find-order_by (λ r. r.index) is_waiting m.db.committed.inputs r e in
      an_advance r idle_inspects waiting there least

  find_by_status-Outcome :
      (b : Bool)
      → next_fault m.db.faults ≡ b
      → let c = find_by_status status_unprocessed m.db in
        let d = proceed c.0 start_advance (record m { db = c.1 }) in Outcome m d.0 d.1.state
  unfolding find_by_status query
  find_by_status-Outcome true e = rw e (idle_inspects, e, refl, refl)
  find_by_status-Outcome false e = rw e (start_advance-Outcome _ (tick m.db) refl)

module _ ⦃x : External⦄ where
  start_inspect-Outcome :
      (o : Option (ℕ × InspectInput)) (m : NonodoModel)
      → first_unprocessed 0 m.inspects ≡ o
      → Outcome m (start_inspect o m).0 (start_inspect o m).1.state
  unfolding start_inspect
  start_inspect-Outcome (some (k, i)) m e =
      let (at, at_k, w) = first_unprocessed-FirstWaiting 0 k i m.inspects e in
      let same : k ≡ at = omega (arith, at_k) in an_inspect k i (rw same w)
  start_inspect-Outcome none m e =
      find_by_status-Outcome m (first_unprocessed-NoneWaiting 0 m.inspects e) _ refl

  -- After a finish that succeeded, `FinishAndGetNext` hands out the first waiting inspect and enters
  -- its state; without one, the waiting input with the least index, in an advance state without
  -- outputs; without either, nothing, in the idle state. It returns an error only if no inspect is
  -- waiting and the engine refuses the query for the input; the error is the query's, and the state
  -- stays the one that was finished.
  pub finish_and_get_next-Outcome :
      (m n : NonodoModel) (accepted : Bool)
      → finish (status_of accepted) m ≡ (ok tt, n)
      → let c = finish_and_get_next accepted m in Outcome n c.0 c.1.state
  unfolding finish_and_get_next get_next
  finish_and_get_next-Outcome m n accepted h = rw h (start_inspect-Outcome _ n refl)
