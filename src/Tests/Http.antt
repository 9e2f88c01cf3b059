-- ===== src/Tests/Http.antt =====
-- Runs of the HTTP handlers: an application that polls, posts outputs and serves an inspect.
use cartesi_rollups_hl_graph.Base.{
  ◌≡◌, refl, true, none, some, [], ◌∷◌, codes, pos, ok, ◌>>◌, scan, decimal, text_eq,
}
use cartesi_rollups_hl_graph.Store.{calm, query, Db}
use cartesi_rollups_hl_graph.Repository.Input
use cartesi_rollups_hl_graph.Repository.Query
use cartesi_rollups_hl_graph.Http.{Request, Others, json, respond}
use cartesi_rollups_hl_graph.Http.Outputs.{VoucherRequest, PayloadRequest}
use cartesi_rollups_hl_graph.Http.Outputs as Handlers
use cartesi_rollups_hl_graph.Http.Refusals.{Settled, outputs-Settled}
use cartesi_rollups_hl_graph.Http.Finish.{poll, poll_sequencer, finish_retries}
use cartesi_rollups_hl_graph.Http.Once.{poll_sequencer-once}
use cartesi_rollups_hl_graph.Http.Served.{serve}
use cartesi_rollups_hl_graph.Http.Answered.{inspect-serve}
use cartesi_rollups_hl_graph.Http.Inspect.{inspect, accepted}
use cartesi_rollups_hl_graph.Rollup.State.{
  Advance, advance, NonodoModel, finish, get_processed_input_count, processed_filter,
}
use cartesi_rollups_hl_graph.Rollup.Operations.{
  get_next, sequencer_finish_and_get_next, new_nonodo_model, add_inspect_input, status_of,
}
use cartesi_rollups_hl_graph.Tests.World.{world, tables, input_row}

abbrev pub idle_model : NonodoModel
idle_model = new_nonodo_model true true (calm tables none)

abbrev alone : Others
alone i m = some m

poll_sequencer-once_example :
    poll_sequencer (some sequencer_finish_and_get_next) alone true idle_model
    ≡ (finish (status_of true) >> poll get_next alone finish_retries 0) idle_model
poll_sequencer-once_example = poll_sequencer-once alone (λ i m n h e. cc) true idle_model

abbrev advancing : Advance
advancing = record {
  input = Input.parse_input (input_row 1 0);
  vouchers = [];
  notices = [];
  reports = [];
}

abbrev at_work : NonodoModel
at_work = record idle_model { state = advance advancing }

abbrev posted : Request PayloadRequest
posted = record {
  content_type = codes "application/json; charset=utf-8";
  body = ok (record { payload = 1 ∷ [] });
}

abbrev misaddressed : Request VoucherRequest
misaddressed = record {
  content_type = codes "application/json";
  body = ok (record { destination = 1 ∷ []; payload = 1 ∷ [] });
}

outputs-Settled_example :
    Settled at_work (Handlers.add_voucher misaddressed at_work)
    × Settled at_work (Handlers.add_notice posted at_work)
    × Settled at_work (Handlers.add_report posted at_work)
outputs-Settled_example = outputs-Settled at_work misaddressed posted posted

abbrev application : Others
application i k = some (serve ((1 ∷ []) ∷ (2 ∷ []) ∷ []) true k)

abbrev after_count : Db
after_count = (get_processed_input_count (calm tables none)).1

counts_inputs : get_processed_input_count (calm tables none) ≡ (ok 1, after_count)
unfolding get_processed_input_count processed_filter Input.count Query.count Query.transform
    Input.comparison query Query.all_hold Query.holds Query.argument Query.compare_value world scan
    decimal text_eq new_nonodo_model
counts_inputs = refl

inspect-serve_example :
    inspect application 2 (7 ∷ []) idle_model
    ≡ some (
      ok (
          respond 200 (
            json (record {
              status = accepted;
              reports = (1 ∷ []) ∷ (2 ∷ []) ∷ [];
              exception_payload = [];
              processed_input_count = pos 1;
            }))),
      serve ((1 ∷ []) ∷ (2 ∷ []) ∷ []) true (add_inspect_input (7 ∷ []) idle_model).1,
    )
unfolding world new_nonodo_model
inspect-serve_example =
    inspect-serve application 0 (7 ∷ []) idle_model ((1 ∷ []) ∷ (2 ∷ []) ∷ []) true 1 after_count
      refl tt (λ k. refl) counts_inputs
