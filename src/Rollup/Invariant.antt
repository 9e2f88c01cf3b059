-- ===== src/Rollup/Invariant.antt =====
-- internal/model: the well-formedness of the model and the operations.
use cartesi_rollups_hl_graph.Rollup.Closing.{
  to_state-IsValid, finish_and_get_next-IsValid, register_exception-IsValid,
}
use cartesi_rollups_hl_graph.Rollup.Validity.{
  StateIsValid, IsValid, Numbered-append, All-append, get_elem?-append,
}
use cartesi_rollups_hl_graph.Base.{
  ℕ, refl, Bool, List, [], ◌∷◌, ◌++◌, Text, Result, ok, err, arith, proceed, pure,
}
use cartesi_rollups_hl_graph.External.{Address, External}
use cartesi_rollups_hl_graph.Data.{AdvanceInput, InspectInput}
use cartesi_rollups_hl_graph.Store.{Db}
use cartesi_rollups_hl_graph.Rollup.State.{RollupsState, idle, advance, inspect, NonodoModel}
use cartesi_rollups_hl_graph.Rollup.Outputs
use cartesi_rollups_hl_graph.Rollup.Outputs.{current_index}
use cartesi_rollups_hl_graph.Rollup.Operations.{
  first_unprocessed, get_next, new_nonodo_model, start_advance, start_inspect,
}
use cartesi_rollups_hl_graph.Rollup.Operations
use cartesi_rollups_hl_graph.Rollup.Steps.{Step, Reach, here, next}

module _ ⦃x : External⦄ where
  add_voucher_with_input-IsValid :
      (ps : List InspectInput) (destination : Address) (payload : Text) (i : ℕ) (s : RollupsState)
      → StateIsValid ps s
      → StateIsValid ps (Outputs.add_voucher_with_input destination payload i s).1
  unfolding Outputs.add_voucher_with_input
  add_voucher_with_input-IsValid ps destination payload i idle v = tt
  add_voucher_with_input-IsValid ps destination payload i (inspect s) v = v
  add_voucher_with_input-IsValid ps destination payload i (advance a) v =
      (Numbered-append _ 0 _ a.vouchers v.0 (omega arith), v.1, v.2, v.3)

  add_notice_with_input-IsValid :
      (ps : List InspectInput) (payload : Text) (i : ℕ) (s : RollupsState)
      → StateIsValid ps s
      → StateIsValid ps (Outputs.add_notice_with_input payload i s).1
  unfolding Outputs.add_notice_with_input
  add_notice_with_input-IsValid ps payload i idle v = tt
  add_notice_with_input-IsValid ps payload i (inspect s) v = v
  add_notice_with_input-IsValid ps payload i (advance a) v =
      (v.0, Numbered-append _ 0 _ a.notices v.1 (omega arith), v.2, v.3)

add_report-IsValid :
    (ps : List InspectInput) (payload : Text) (s : RollupsState)
    → StateIsValid ps s
    → StateIsValid ps (Outputs.add_report payload s).1
unfolding Outputs.add_report
add_report-IsValid ps payload idle v = tt
add_report-IsValid ps payload (advance a) v =
    (v.0, v.1, Numbered-append _ 0 _ a.reports v.2 (omega arith), All-append _ _ a.reports v.3 refl)
add_report-IsValid ps payload (inspect s) (i, found, index, numbered) =
    (i, found, index, Numbered-append _ 0 _ s.reports numbered (omega arith))

StateIsValid-append :
    (ps : List InspectInput) (p : InspectInput) (s : RollupsState)
    → StateIsValid ps s
    → StateIsValid (ps ++ p ∷ []) s
StateIsValid-append ps p idle v = tt
StateIsValid-append ps p (advance a) v = v
StateIsValid-append ps p (inspect s) (i, found, index, numbered) =
    (i, get_elem?-append s.at p i ps found, index, numbered)

add_inspect_input-IsValid :
    (m : NonodoModel) (payload : Text)
    → IsValid m
    → IsValid (Operations.add_inspect_input payload m).1
unfolding Operations.add_inspect_input
add_inspect_input-IsValid m payload v = record {
  inspects_numbered = Numbered-append _ 0 _ m.inspects v.inspects_numbered (omega arith);
  state_valid = StateIsValid-append m.inspects _ m.state v.state_valid;
}

module _ ⦃x : External⦄ where
  add_advance_input-IsValid :
      (m : NonodoModel) (sender : Address) (payload : Text) (block_number timestamp index : ℕ)
      → IsValid m
      → IsValid (Operations.add_advance_input sender payload block_number timestamp index m).1
  unfolding Operations.add_advance_input
  add_advance_input-IsValid m sender payload block_number timestamp index v =
      on_ok _ _ (to_state-IsValid m m.state _ v v.state_valid)
    where
      on_ok :
          (r : Result AdvanceInput) (k : NonodoModel)
          → IsValid k
          → IsValid (proceed r (λ _. pure tt) k).1
      on_ok (ok _) k w = w
      on_ok (err e) k w = w

  -- Every operation, with any arguments and whatever the database answers, keeps the model valid.
  pub Step-IsValid : {m n : NonodoModel} → Step m n → IsValid m → IsValid n
  Step-IsValid (Step.add_advance_input m sender payload b t i) v =
      add_advance_input-IsValid m sender payload b t i v
  Step-IsValid (Step.add_inspect_input m payload) v = add_inspect_input-IsValid m payload v
  Step-IsValid (Step.finish_and_get_next m accepted) v = finish_and_get_next-IsValid m accepted v
  Step-IsValid (Step.sequencer_finish_and_get_next m accept) v =
      unfold Operations.sequencer_finish_and_get_next Operations.finish_and_get_next in
      finish_and_get_next-IsValid m accept v
  Step-IsValid (Step.add_voucher m destination payload) v =
      unfold Operations.add_voucher Outputs.add_voucher in
      to_state-IsValid m _ m.db v (
        add_voucher_with_input-IsValid m.inspects destination payload (current_index m.state)
          m.state v.state_valid)
  Step-IsValid (Step.add_voucher_with_input m destination payload i) v =
      unfold Operations.add_voucher_with_input in
      to_state-IsValid m _ m.db v
        (add_voucher_with_input-IsValid m.inspects destination payload i m.state v.state_valid)
  Step-IsValid (Step.add_notice m payload) v =
      unfold Operations.add_notice Outputs.add_notice in
      to_state-IsValid m _ m.db v (
        add_notice_with_input-IsValid m.inspects payload (current_index m.state) m.state
          v.state_valid)
  Step-IsValid (Step.add_notice_with_input m payload i) v =
      unfold Operations.add_notice_with_input in
      to_state-IsValid m _ m.db v
        (add_notice_with_input-IsValid m.inspects payload i m.state v.state_valid)
  Step-IsValid (Step.add_report m payload) v =
      unfold Operations.add_report in
      to_state-IsValid m _ m.db v (add_report-IsValid m.inspects payload m.state v.state_valid)
  Step-IsValid (Step.register_exception m payload) v = register_exception-IsValid m payload v
  Step-IsValid (Step.database_changes m db) v = to_state-IsValid m m.state db v v.state_valid

  -- Every model that is reached from a new one, by any operations at all, is valid.
  pub Reach-IsValid :
      (has_decoder has_reports : Bool) (db : Db) {m : NonodoModel}
      → Reach (new_nonodo_model has_decoder has_reports db) m
      → IsValid m
  unfolding new_nonodo_model
  Reach-IsValid has_decoder has_reports db here = record {
    inspects_numbered = tt;
    state_valid = tt;
  }
  Reach-IsValid has_decoder has_reports db (next r s) =
      Step-IsValid s (Reach-IsValid has_decoder has_reports db r)
