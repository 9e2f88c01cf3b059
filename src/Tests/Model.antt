-- ===== src/Tests/Model.antt =====
-- Runs of the rollup model: an advance with a voucher, a notice and a report is accepted, and the
-- next input is the waiting one with the least index.
use cartesi_rollups_hl_graph.Base.{
  slice, slice_from, ◌≡◌, refl, true, false, none, [], ◌∷◌, ok, text_eq, codes, ap, ◌++◌, err,
  primary_key, some,
}
use cartesi_rollups_hl_graph.Store.{for_each, calm, query, exec}
use cartesi_rollups_hl_graph.Store.Table.{insert, lookup, update}
use cartesi_rollups_hl_graph.Decoder.{handle_output, remove_selector, convert_voucher_payload_to_v2}
use cartesi_rollups_hl_graph.Service
use cartesi_rollups_hl_graph.Repository.Input
use cartesi_rollups_hl_graph.Repository.Voucher
use cartesi_rollups_hl_graph.Repository.Report
use cartesi_rollups_hl_graph.Rollup.State.{NonodoModel, advance, finish}
use cartesi_rollups_hl_graph.Rollup.State
use cartesi_rollups_hl_graph.Rollup.Operations.{
  finish_and_get_next, new_nonodo_model, add_inspect_input, add_report,
}
use cartesi_rollups_hl_graph.Rollup.Steps.{Step, here, next}
use cartesi_rollups_hl_graph.Rollup.Invariant.{Reach-IsValid}
use cartesi_rollups_hl_graph.Rollup.Validity.{IsValid}
use cartesi_rollups_hl_graph.Rollup.Dispatch.{Outcome, finish_and_get_next-Outcome}
use cartesi_rollups_hl_graph.Rollup.Stuck.{IsStuck, attempt, attempts, attempts-IsStuck}
use cartesi_rollups_hl_graph.Tests.World.{world, tables, input_row}

abbrev busy : NonodoModel
busy = record {
  inspects = [];
  state = advance (record {
    input = Input.parse_input (input_row 1 0);
    vouchers =
        record {
          destination = 8;
          payload = codes "ab";
          input_index = 1;
          output_index = 0;
          executed = false;
          app_contract = 0;
        }
        ∷ [];
    notices = [];
    reports = record { index = 0; input_index = 1; payload = 4 ∷ []; app_contract = 0 } ∷ [];
  });
  has_decoder = true;
  has_reports = true;
  db = calm tables none;
}

abbrev finished : NonodoModel
finished = (finish 1 busy).1

finishes : (finish 1 busy).0 ≡ ok tt
unfolding finish State.finish_state State.close_advance State.finish_advance
    State.send_all_input_vouchers_to_decoder State.send_voucher
    State.send_all_input_notices_to_decoder State.save_all_reports State.save_report for_each
    State.settle handle_output slice slice_from remove_selector Service.create_voucher
    Voucher.find_voucher_by_app_contract_and_index Voucher.create_voucher Voucher.to_row
    Report.create Report.to_row Input.update_input query exec insert lookup update text_eq world
    convert_voucher_payload_to_v2
finishes = refl

finish_and_get_next-Outcome_example :
    let c = finish_and_get_next true busy in Outcome finished c.0 c.1.state
finish_and_get_next-Outcome_example =
    finish_and_get_next-Outcome busy finished true (ap (λ r. (r, finished)) finishes)

abbrev new_model : NonodoModel
new_model = new_nonodo_model true true (calm tables none)

abbrev asked : NonodoModel
asked = (add_inspect_input (1 ∷ []) new_model).1

abbrev started : NonodoModel
started = (finish_and_get_next true asked).1

abbrev reported : NonodoModel
reported = (add_report (2 ∷ []) started).1

Reach-IsValid_example : IsValid reported
Reach-IsValid_example = Reach-IsValid true true (calm tables none) (
    next
      (next (next here (Step.add_inspect_input new_model (1 ∷ [])))
        (Step.finish_and_get_next asked true))
      (Step.add_report started (2 ∷ [])))

-- The engine refuses the second statement of the rejection, the update of the input.
abbrev jammed : NonodoModel
jammed =
    (finish_and_get_next false
      (record busy { db = record (busy.db) { faults = false ∷ true ∷ [] } })).1

jammed-IsStuck : IsStuck jammed
unfolding finish_and_get_next finish State.finish_state State.close_advance State.finish_advance
    State.save_all_reports State.save_report for_each State.settle Report.create Report.to_row
    Input.update_input Input.parse_input query exec insert lookup update world
jammed-IsStuck = record {
  a = record {
    input = record (Input.parse_input (input_row 1 0)) { status = 2 };
    vouchers =
        record {
          destination = 8;
          payload = codes "ab";
          input_index = 1;
          output_index = 0;
          executed = false;
          app_contract = 0;
        }
        ∷ [];
    notices = [];
    reports = record { index = 0; input_index = 1; payload = 4 ∷ []; app_contract = 0 } ∷ [];
  };
  r = record { index = 0; input_index = 1; payload = 4 ∷ []; app_contract = 0 };
  rest = [];
  t = record tables {
    reports =
        tables.reports
        ++ record { output_index = 0; input_index = 1; payload = 4 ∷ []; app_contract = 0 ∷ [] }
          ∷ [];
  };
  row = record { output_index = 0; input_index = 1; payload = 4 ∷ []; app_contract = 0 ∷ [] };
  advancing = refl;
  first = refl;
  saving = refl;
  tables = refl;
  stored = refl;
}

attempts-IsStuck_example :
    (attempt none (attempts (none ∷ some (1 ∷ []) ∷ []) jammed)).0 ≡ err primary_key
attempts-IsStuck_example = attempts-IsStuck (none ∷ some (1 ∷ []) ∷ []) none jammed jammed-IsStuck
