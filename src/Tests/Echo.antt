-- ===== src/Tests/Echo.antt =====
-- A run of the echo application: the node is idle, and the waiting input with the least index is 2.
use cartesi_rollups_hl_graph.Echo.Progress.{serving, Served, echo-Served}
use cartesi_rollups_hl_graph.Echo.Waiting.{waiting, IsAnswerable}
use cartesi_rollups_hl_graph.Base.{◌≡◌, refl, true, none, some, [], ◌∷◌, ok, codes, arith, text_eq}
use cartesi_rollups_hl_graph.Data.{AdvanceInput, status_accepted}
use cartesi_rollups_hl_graph.Store.{calm, query}
use cartesi_rollups_hl_graph.Store.Table.{lookup, order_by}
use cartesi_rollups_hl_graph.Repository.Input
use cartesi_rollups_hl_graph.Rollup.State.{NonodoModel, finish, idle}
use cartesi_rollups_hl_graph.Rollup.Operations.{
  advance_input, sequencer_finish_and_get_next, get_next, first_unprocessed, start_inspect,
  start_advance, new_nonodo_model,
}
use cartesi_rollups_hl_graph.Http.{Others}
use cartesi_rollups_hl_graph.Echo.{echo_round}
use cartesi_rollups_hl_graph.Echo.Node.{node}
use cartesi_rollups_hl_graph.Echo.Answers.{echo_voucher, echo_notice, echo_report}
use cartesi_rollups_hl_graph.Echo.Stored.{with_outputs, without_outputs, echo_round-stored}
use cartesi_rollups_hl_graph.Tests.World.{world, tables, input_row}

abbrev alone : Others
alone i m = some m

abbrev idle_model : NonodoModel
idle_model = new_nonodo_model true true (calm tables none)

abbrev waiting_input : AdvanceInput
waiting_input = Input.parse_input (input_row 2 0)

abbrev handed : NonodoModel
handed = (sequencer_finish_and_get_next true idle_model).1

hands_out :
    sequencer_finish_and_get_next true idle_model
    ≡ (ok (some (advance_input waiting_input)), handed)
unfolding sequencer_finish_and_get_next finish get_next start_inspect first_unprocessed
    start_advance Input.find_by_status Input.parse_input query order_by new_nonodo_model world
hands_out = refl

echo_round-stored_example :
    let d = finish status_accepted (echo_round (node alone) idle_model).1 in
    (d.0 ≡ ok tt)
    × (d.1.db
        ≡ calm
            (with_outputs waiting_input
              (echo_voucher (without_outputs waiting_input) waiting_input)
              (echo_notice (without_outputs waiting_input) (6 ∷ codes "ff"))
              (echo_report (without_outputs waiting_input) (6 ∷ []))
              tables)
            none)
unfolding sequencer_finish_and_get_next finish get_next start_inspect first_unprocessed
    start_advance Input.find_by_status Input.parse_input query order_by new_nonodo_model lookup
    text_eq world
echo_round-stored_example =
    echo_round-stored alone waiting_input (6 ∷ codes "ff") idle_model handed tables none hands_out
      refl refl refl refl (refl, refl, refl, refl, refl) (omega arith) (omega arith, tt) refl

input_4 : IsAnswerable tables (input_row 4 0)
unfolding lookup text_eq world
input_4 = record {
  fresh = (refl, refl, refl, refl, refl);
  sender = omega arith;
  bytes = (omega arith, tt);
  noticed = 6 ∷ codes "ff";
  decoded = refl;
}

input_2 : IsAnswerable tables (input_row 2 0)
unfolding lookup text_eq world
input_2 = record {
  fresh = (refl, refl, refl, refl, refl);
  sender = omega arith;
  bytes = (omega arith, tt);
  noticed = 6 ∷ codes "ff";
  decoded = refl;
}

finishes : finish status_accepted idle_model ≡ (ok tt, serving [] idle tables none)
unfolding finish new_nonodo_model
finishes = refl

two_wait : waiting (tables.inputs) ≡ 2
unfolding waiting
two_wait = refl

echo-Served_example : Served alone [] none 2 idle_model tables
echo-Served_example =
    echo-Served alone [] none 2 idle_model idle tables (unfold first_unprocessed in refl) finishes
      (λ w. input_4, (λ w. input_2, (λ w. cc, tt))) (omega (arith, two_wait))
