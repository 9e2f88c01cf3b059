-- ===== src/Rollup/Closing.antt =====
-- internal/model: the well-formedness of the model and the operations that end an input or start one.
use cartesi_rollups_hl_graph.Rollup.Validity.{
  Numbered, StateIsValid, IsValid, Numbered-modify_at, get_elem?-modify_at,
  first_unprocessed-get_elem?,
}
use cartesi_rollups_hl_graph.Base.{
  ℕ, ◌≡◌, refl, Bool, Option, none, some, List, Text, ◌==◌, Bool-cases, inl, inr, Result, ok, err,
  arith, ◌∙◌, proceed,
}
use cartesi_rollups_hl_graph.External.{External}
use cartesi_rollups_hl_graph.Data.{CompletionStatus, AdvanceInput, InspectInput, status_accepted}
use cartesi_rollups_hl_graph.Store.{Db}
use cartesi_rollups_hl_graph.Rollup.State.{
  Advance, Inspect, RollupsState, idle, advance, inspect, NonodoModel, new_advance, new_inspect,
  finish, except, modify_at, settle, finish_state, except_state, fail, close_advance, close_inspect,
  finish_advance, except_advance,
}
use cartesi_rollups_hl_graph.Rollup.Operations.{
  first_unprocessed, get_next, new_nonodo_model, start_advance, start_inspect,
}
use cartesi_rollups_hl_graph.Rollup.Operations

pub settle-StateIsValid :
    (ps : List InspectInput) (status : CompletionStatus) (a : Advance)
    → StateIsValid ps (advance a)
    → StateIsValid ps (advance (settle status a))
unfolding settle
settle-StateIsValid ps status a v = elim (Bool-cases (status == status_accepted)) [
  | inl e ↦ rw e v
  | inr e ↦ rw e v
]

module _ (m : NonodoModel) (n : Numbered (λ i. i.index) 0 m.inspects) where
  pub close_advance-IsValid :
      (a : Advance) (c : Result (Unit {0}) × Db)
      → StateIsValid m.inspects (advance a)
      → IsValid (close_advance m a c).1
  unfolding close_advance
  close_advance-IsValid a (r, db) v = record { inspects_numbered = n; state_valid = v }

  -- The inspect that the state points at may be rewritten, but keeps its index.
  pub rewrite_inspect-IsValid :
      (s : Inspect) (db : Db) (f : InspectInput → InspectInput)
      → ((p : InspectInput) → (f p).index ≡ p.index)
      → m.state ≡ inspect s
      → StateIsValid m.inspects (inspect s)
      → IsValid (record m { inspects = modify_at s.at f m.inspects; db = db })
  rewrite_inspect-IsValid s db f same e (i, found, index, reports) = record {
    inspects_numbered = Numbered-modify_at 0 s.at f m.inspects same n;
    state_valid =
        rw e (f i, get_elem?-modify_at s.at f m.inspects i found, same i ∙ index, reports);
  }

  pub close_inspect-IsValid :
      (s : Inspect) (status : CompletionStatus) (c : Result ℕ × Db)
      → m.state ≡ inspect s
      → StateIsValid m.inspects (inspect s)
      → IsValid (close_inspect m s status c).1
  unfolding close_inspect
  close_inspect-IsValid s status (ok k, db) e v = rewrite_inspect-IsValid s db _ (λ p. refl) e v
  close_inspect-IsValid s status (err k, db) e v = rewrite_inspect-IsValid s db _ (λ p. refl) e v

module _ ⦃x : External⦄ (m : NonodoModel) (n : Numbered (λ i. i.index) 0 m.inspects) where
  pub finish_state-IsValid :
      (s : RollupsState) (status : CompletionStatus)
      → StateIsValid m.inspects s
      → m.state ≡ s
      → IsValid (finish_state s status m).1
  unfolding finish_state
  finish_state-IsValid idle status v e = record { inspects_numbered = n; state_valid = rw e v }
  finish_state-IsValid (advance a) status v e =
      close_advance-IsValid m n (settle status a)
        (finish_advance m.has_decoder m.has_reports status a m.db)
        (settle-StateIsValid m.inspects status a v)
  finish_state-IsValid (inspect s) status v e = close_inspect-IsValid m n s status _ e v

  pub except_state-IsValid :
      (s : RollupsState) (payload : Text)
      → StateIsValid m.inspects s
      → m.state ≡ s
      → IsValid (except_state s payload m).1
  unfolding except_state
  except_state-IsValid idle payload v e = record { inspects_numbered = n; state_valid = rw e v }
  except_state-IsValid (advance a) payload v e =
      close_advance-IsValid m n (fail payload a) (except_advance m.has_reports payload a m.db)
        (unfold fail in v)
  except_state-IsValid (inspect s) payload v e = rewrite_inspect-IsValid m n s _ _ (λ p. refl) e v

pub to_state-IsValid :
    (m : NonodoModel) (s : RollupsState) (db : Db)
    → IsValid m
    → StateIsValid m.inspects s
    → IsValid (record m { state = s; db = db })
to_state-IsValid m s db v w = record { inspects_numbered = v.inspects_numbered; state_valid = w }

module _ ⦃x : External⦄ where
  pub start_advance-IsValid :
      (o : Option AdvanceInput) (m : NonodoModel) → IsValid m → IsValid (start_advance o m).1
  unfolding start_advance new_advance
  start_advance-IsValid none m v = to_state-IsValid m idle m.db v tt
  start_advance-IsValid (some i) m v = to_state-IsValid m (new_advance i) m.db v (tt, tt, tt, tt)

  pub resume-IsValid :
      (r : Result (Option AdvanceInput)) (m : NonodoModel)
      → IsValid m
      → IsValid (proceed r start_advance m).1
  resume-IsValid (ok o) m v = start_advance-IsValid o m v
  resume-IsValid (err e) m v = v

  pub start_inspect-IsValid :
      (o : Option (ℕ × InspectInput)) (m : NonodoModel)
      → first_unprocessed 0 m.inspects ≡ o
      → IsValid m
      → IsValid (start_inspect o m).1
  unfolding start_inspect new_inspect
  start_inspect-IsValid (some (at, i)) m e v =
      let (d, at_d, there) = first_unprocessed-get_elem? 0 at i m.inspects e in
      let same : at ≡ d = omega (arith, at_d) in
      to_state-IsValid m (new_inspect at i) m.db v (i, rw same there, refl, tt)
  start_inspect-IsValid none m e v =
      resume-IsValid _ _ (to_state-IsValid m m.state _ v v.state_valid)

  pub get_next-IsValid : (m : NonodoModel) → IsValid m → IsValid (get_next m).1
  unfolding get_next
  get_next-IsValid m v = start_inspect-IsValid _ m refl v

  pub finish_and_get_next-IsValid :
      (m : NonodoModel) (accepted : Bool)
      → IsValid m
      → IsValid (Operations.finish_and_get_next accepted m).1
  unfolding Operations.finish_and_get_next finish
  finish_and_get_next-IsValid m accepted v =
      on_ok _ _ (finish_state-IsValid m v.inspects_numbered m.state _ v.state_valid refl)
    where
      on_ok :
          (r : Result (Unit {0})) (k : NonodoModel)
          → IsValid k
          → IsValid (proceed r (λ _. get_next) k).1
      on_ok (ok _) k w = get_next-IsValid k w
      on_ok (err e) k w = w

  pub register_exception-IsValid :
      (m : NonodoModel) (payload : Text)
      → IsValid m
      → IsValid (Operations.register_exception payload m).1
  unfolding Operations.register_exception except
  register_exception-IsValid m payload v =
      on_ok _ _ (except_state-IsValid m v.inspects_numbered m.state payload v.state_valid refl)
    where
      on_ok :
          (r : Result (Unit {0})) (k : NonodoModel)
          → IsValid k
          → IsValid (proceed r (λ _ n. (ok tt, record n { state = idle })) k).1
      on_ok (ok _) k w = to_state-IsValid k idle k.db w tt
      on_ok (err e) k w = w
