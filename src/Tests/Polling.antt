-- ===== src/Tests/Polling.antt =====
-- Outputs that reach the database by way of the decoder: a payload that both handlers take, and runs of
-- the worker that fetches vouchers, whose server refuses the first request, answers the next one
-- with a voucher, and has no more of them behind its cursor.
use cartesi_rollups_hl_graph.Decoder.Selector.{
  voucher_with, notice_with, marked, handle_output_v2-convert,
}
use cartesi_rollups_hl_graph.Base.{
  ◌≡◌, refl, Option, none, some, [], ◌∷◌, ok, err, codes, text_eq, slice, slice_from, canceled,
  Text, ◌>>◌, pure,
}
use cartesi_rollups_hl_graph.Store.{Db, query, exec, for_each, write_committed, background}
use cartesi_rollups_hl_graph.Store.Table.{lookup, insert}
use cartesi_rollups_hl_graph.Decoder.{
  handle_output_v2, store_voucher_v2, store_voucher, remove_selector, get_converted_input,
  retrieve_destination, handle_output, convert_voucher_payload_to_v2,
}
use cartesi_rollups_hl_graph.Service
use cartesi_rollups_hl_graph.Repository.Voucher
use cartesi_rollups_hl_graph.Repository.Synchronizer as Fetches
use cartesi_rollups_hl_graph.Synchronizer.Polling.{
  VoucherPage, Round, fresh, request, on_db, note_page, note_cursor, take_over, take_cursor,
  store_node, handle_page, fetch_round, poll_rounds, voucher_polling,
}
use cartesi_rollups_hl_graph.Synchronizer.Restart.{voucher_polling-restart}
use cartesi_rollups_hl_graph.Tests.World.{world, tables}

abbrev page : Option Text → VoucherPage
page none = record {
  vouchers =
      record {
        index = 0;
        input_index = 6;
        destination = codes "0x07";
        payload = codes "0x00ef615e2fabcd";
      }
      ∷ [];
  end_cursor = codes "v1";
}
page (some cursor) = record { vouchers = []; end_cursor = [] }

abbrev refused : Round
refused = record { now = 4; answer = λ r. err canceled }

abbrev served : Round
served = record { now = 5; answer = λ r. ok (page r.after) }

abbrev start : Db
start = record { committed = tables; tx = none; faults = [] }

polls :
    let p = voucher_polling refused (served ∷ []) (fresh start) in
    (p.0 ≡ ok tt) × (p.1.cursor_after ≡ codes "v1") × (p.1.db.faults ≡ [])
unfolding voucher_polling poll_rounds fetch_round handle_page store_node take_over take_cursor
    request on_db note_page note_cursor handle_output_v2 store_voucher_v2 store_voucher
    get_converted_input retrieve_destination slice slice_from remove_selector Service.create_voucher
    Service.put_voucher Voucher.find_voucher_by_app_contract_and_index Voucher.create_voucher
    Fetches.create Fetches.get_last_fetched Voucher.to_row query exec for_each lookup insert
    write_committed text_eq world
polls = (refl, refl, refl)

voucher_polling-restart_example :
    voucher_polling refused (served ∷ served ∷ []) (fresh start)
    ≡ voucher_polling served [] (fresh (voucher_polling refused (served ∷ []) (fresh start)).1.db)
voucher_polling-restart_example =
    voucher_polling-restart start refused (served ∷ []) served [] polls.0 polls.2

handle_output_v2-convert_example :
    (handle_output background 7 (convert_voucher_payload_to_v2 (codes "ab")) 6 0 start
      ≡ (Service.create_voucher background (voucher_with 7 (codes "ab") 6 0) >> pure tt) start)
    × (handle_output_v2 background (marked (codes "0x07") (codes "ab") 6 0) start
        ≡ (Service.create_notice background (notice_with (codes "ab") 6 0 97) >> pure tt) start)
unfolding world
handle_output_v2-convert_example =
    handle_output_v2-convert background 7 (codes "0x07") 97 98 [] 6 0 start refl
