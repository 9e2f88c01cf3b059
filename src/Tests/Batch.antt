-- ===== src/Tests/Batch.antt =====
-- Runs of the synchronizer: a batch with an output, an input and a report; one with a blob that holds
-- nothing behind its selector; and a commit that the engine refuses.
use cartesi_rollups_hl_graph.Base.{
  slice, slice_from, ◌≡◌, refl, Bool, true, false, none, List, [], ◌∷◌, ok, err, text_eq, codes,
  Text, bad_blob, db_fault,
}
use cartesi_rollups_hl_graph.Store.{query, exec, for_each, start_transaction, commit, next_fault}
use cartesi_rollups_hl_graph.Store.Table.{lookup, insert}
use cartesi_rollups_hl_graph.Decoder.{
  handle_output_v2, handle_input, handle_report, remove_selector, get_converted_input, store_notice,
}
use cartesi_rollups_hl_graph.Service
use cartesi_rollups_hl_graph.Repository.Input
use cartesi_rollups_hl_graph.Repository.Notice
use cartesi_rollups_hl_graph.Repository.Report
use cartesi_rollups_hl_graph.Repository.Synchronizer as Fetches
use cartesi_rollups_hl_graph.Synchronizer.{
  OutputResponse, Synchronizing, has_more, resume, record_fetch, store_output, store_input,
  store_report, store_nodes, store_response, handle_graphile_response, close_transaction,
  handle_with_db_transaction,
}
use cartesi_rollups_hl_graph.Synchronizer.Batch.{
  stored, later, handle_with_db_transaction_atomic, resume-handle_with_db_transaction,
  handle_with_db_transaction_skips,
}
use cartesi_rollups_hl_graph.Tests.World.{world, tables}

abbrev batch : Text → OutputResponse
batch blob = record {
  outputs = record { index = 0; input_index = 6; blob = blob } ∷ [];
  outputs_end = codes "o1";
  inputs = record { index = 7; blob = codes "0xabcdef0123" } ∷ [];
  inputs_end = codes "i1";
  reports = record { index = 0; input_index = 6; blob = codes "0x12" } ∷ [];
  reports_end = [];
}

abbrev good : OutputResponse
good = batch (codes "0xc258d6e5abcd")

abbrev bad : OutputResponse
bad = batch (codes "0xc258d6e5")

abbrev fresh : List Bool → Synchronizing
fresh faults = record {
  cursors = record { cursor_after = []; cursor_input_after = []; cursor_report_after = [] };
  db = record { committed = tables; tx = none; faults = faults };
}

handled : (handle_with_db_transaction 5 good (fresh [])).0 ≡ ok tt
unfolding handle_with_db_transaction handle_graphile_response close_transaction store_response
    store_nodes store_output store_input store_report record_fetch handle_output_v2 handle_input
    handle_report get_converted_input slice slice_from remove_selector store_notice
    Service.create_notice Service.create_input Service.create_report Service.put_notice
    Service.put_input Service.put_report Notice.find_notice_by_app_contract_and_index Notice.create
    Input.find_input_by_app_contract_and_index Input.raw_create
    Report.find_report_by_app_contract_and_index Report.create Fetches.create Notice.to_row
    Report.to_row has_more start_transaction commit query exec for_each lookup insert text_eq world
handled = refl

refuses : (handle_with_db_transaction 5 bad (fresh [])).0 ≡ err bad_blob
unfolding handle_with_db_transaction handle_graphile_response close_transaction store_response
    store_nodes store_output handle_output_v2 get_converted_input slice_from start_transaction
    for_each world
refuses = refl

handle_with_db_transaction_atomic_example :
    (handle_with_db_transaction 5 bad (fresh [])).1.db.committed ≡ tables
handle_with_db_transaction_atomic_example =
    handle_with_db_transaction_atomic 5 bad (fresh []) refuses

resume-handle_with_db_transaction_example :
    resume
      (Fetches.last (handle_with_db_transaction 5 good (fresh [])).1.db.committed.fetches)
      ((fresh []).cursors)
    ≡ (handle_with_db_transaction 5 good (fresh [])).1.cursors
unfolding has_more
resume-handle_with_db_transaction_example =
    resume-handle_with_db_transaction 5 good (fresh []) ((fresh []).cursors) handled refl

-- The engine refuses the ninth statement, the commit.
abbrev flaky : Synchronizing
flaky = fresh (false ∷ false ∷ false ∷ false ∷ false ∷ false ∷ false ∷ false ∷ true ∷ [])

stores : (stored 5 good flaky).0 ≡ ok tt
unfolding handle_with_db_transaction handle_graphile_response close_transaction store_response
    store_nodes store_output store_input store_report record_fetch handle_output_v2 handle_input
    handle_report get_converted_input slice slice_from remove_selector store_notice
    Service.create_notice Service.create_input Service.create_report Service.put_notice
    Service.put_input Service.put_report Notice.find_notice_by_app_contract_and_index Notice.create
    Input.find_input_by_app_contract_and_index Input.raw_create
    Report.find_report_by_app_contract_and_index Report.create Fetches.create Notice.to_row
    Report.to_row has_more start_transaction commit query exec for_each lookup insert text_eq world
stores = refl

commit_refused : next_fault (stored 5 good flaky).1.faults ≡ true
unfolding handle_with_db_transaction handle_graphile_response close_transaction store_response
    store_nodes store_output store_input store_report record_fetch handle_output_v2 handle_input
    handle_report get_converted_input slice slice_from remove_selector store_notice
    Service.create_notice Service.create_input Service.create_report Service.put_notice
    Service.put_input Service.put_report Notice.find_notice_by_app_contract_and_index Notice.create
    Input.find_input_by_app_contract_and_index Input.raw_create
    Report.find_report_by_app_contract_and_index Report.create Fetches.create Notice.to_row
    Report.to_row has_more start_transaction commit query exec for_each lookup insert text_eq world
commit_refused = refl

handle_with_db_transaction_skips_example :
    let h = handle_with_db_transaction 5 good flaky in
    (h.0 ≡ err db_fault) × (h.1.db.committed ≡ tables) × (h.1.cursors ≡ later 5 good flaky)
handle_with_db_transaction_skips_example =
    handle_with_db_transaction_skips 5 good flaky refl stores commit_refused
