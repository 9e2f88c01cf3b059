-- ===== src/Tests/Inputs.antt =====
-- Runs of the inputter and of the queries for inputs.
use cartesi_rollups_hl_graph.Base.{
  ℕ, ◌≡◌, refl, none, some, List, [], ◌∷◌, pos, ok, canceled, slice_from, decimal,
}
use cartesi_rollups_hl_graph.External.{EvmAdvance}
use cartesi_rollups_hl_graph.Store.{InputRow, calm}
use cartesi_rollups_hl_graph.Store.Table.{order_by}
use cartesi_rollups_hl_graph.Pagination.{compute_page, compute_forward_page}
use cartesi_rollups_hl_graph.Repository.Input as Inputs
use cartesi_rollups_hl_graph.Reader.Connection.{new_connection}
use cartesi_rollups_hl_graph.Reader.Conversions.{
  Input, unprocessed, convert_input, convert_inputs, convert_completion_status,
}
use cartesi_rollups_hl_graph.Reader.Adapter.{InputFilter, get_inputs, get_input}
use cartesi_rollups_hl_graph.Reader.AdapterV2
use cartesi_rollups_hl_graph.Reader.Inputs.{get_inputs-calm, Agree, get_input-Agree}
use cartesi_rollups_hl_graph.Inputter.{InputAdded, Client, Worker, read_input, read_events}
use cartesi_rollups_hl_graph.Inputter.Watch.{Session, context_done, broken, watch}
use cartesi_rollups_hl_graph.Inputter.Merge.{
  Read, IsRead, events, rows_of, stored, or_else, with_inputs, read_events-stored,
}
use cartesi_rollups_hl_graph.Inputter.Keeps.{Grown, watch-Grown}
use cartesi_rollups_hl_graph.Tests.World.{world, tables, input_row}
use cartesi_rollups_hl_graph.Tests.Http.{idle_model}

abbrev event : ℕ → InputAdded
event i = record { index = i; input = 0 ∷ 0 ∷ 0 ∷ 0 ∷ 7 ∷ []; block_number = 12; block_hash = 3 }

abbrev client : Client
client = record {
  header_by_hash = λ h. ok 100;
  filter_input_added = λ n. ok (event 4 ∷ event 9 ∷ []);
}

abbrev values : EvmAdvance
values = record {
  app_contract = 7;
  msg_sender = 2;
  block_number = 3;
  block_timestamp = 4;
  prev_randao = 5;
  payload = 7 ∷ [];
}

abbrev read : Read
read = (event 4, (100, values)) ∷ (event 9, (100, values)) ∷ []

read-IsRead : IsRead client read
unfolding read_input slice_from world
read-IsRead = (refl, (refl, tt))

abbrev worker : Worker
worker = record { input_box_block = 0; model = with_inputs idle_model tables tables.inputs }

read_events-stored_example :
    (n : ℕ) × (later : List InputRow) × (read_events client (events read) worker
      ≡ (ok tt, record { input_box_block = n; model = with_inputs idle_model tables later }))
    × ((i : ℕ) → stored i later ≡ or_else (stored i tables.inputs) (stored i (rows_of read)))
read_events-stored_example =
    read_events-stored client read worker idle_model tables tables.inputs read-IsRead refl

abbrev known : Read
known = (event 4, (100, values)) ∷ []

abbrev sessions : List Session
sessions =
    record {
      client = client;
      subscribed = ok tt;
      delivered = event 11 ∷ record (event 12) { input = [] } ∷ [];
      ended = broken canceled;
    }
    ∷ record { client = client; subscribed = ok tt; delivered = []; ended = context_done }
    ∷ []

watch-Grown_example : Grown idle_model tables tables.inputs (watch sessions 0 worker).1
watch-Grown_example = watch-Grown idle_model tables sessions 0 worker tables.inputs refl

abbrev asked : InputFilter
asked = record { index_lower_than = some 4; index_greater_than = some 1; msg_sender = none }

abbrev node : Input
node = record {
  index = 2;
  status = unprocessed;
  msg_sender = 5 ∷ [];
  timestamp = decimal 0;
  block_number = decimal 1;
  payload = 6 ∷ [];
}

page_of_one : compute_page (some (pos 5)) none none none 1 ≡ ok (pos 0, pos 1)
unfolding compute_page compute_forward_page
page_of_one = refl

converts_one : convert_inputs (Inputs.parse_input (input_row 2 0) ∷ []) ≡ ok (node ∷ [])
unfolding convert_inputs convert_input convert_completion_status Inputs.parse_input world
converts_one = refl

get_inputs-calm_example :
    get_inputs (some (pos 5)) none none none (some asked) (calm tables none)
    ≡ (ok (new_connection 0 1 (node ∷ [])), calm tables none)
unfolding order_by
get_inputs-calm_example =
    get_inputs-calm (some (pos 5)) none none none (some asked) tables none 0 1 (node ∷ [])
      page_of_one converts_one

get_input-Agree_example :
    Agree
      (Inputs.find_by_index 2 (calm tables none)).0
      (get_input 2 (calm tables none)).0
      (AdapterV2.get_input 2 (calm tables none)).0
    × ((get_input 2 (calm tables none)).1 ≡ (AdapterV2.get_input 2 (calm tables none)).1)
get_input-Agree_example = get_input-Agree 2 (calm tables none)
