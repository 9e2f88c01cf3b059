-- ===== src/Synchronizer/Polling.antt =====
-- internal/convenience/synchronizer/synchronizer.go and the variables of the request in
-- voucher_fetcher.go: the worker that asks the GraphQL server of a node for its vouchers, page after
-- page. A round is one fetch: what the server answers to the request, an error included, and the time at
-- which the page is noted. The context is done in the wait after the last round. Indices are not
-- negative; a panic ends the process.
use cartesi_rollups_hl_graph.Base.{
  ℕ, Option, none, some, List, [], ◌∷◌, map, Text, if◌then◌else◌, Result, ok, err, Exec, ◌>>=◌,
  ◌>>◌, pure,
}
use cartesi_rollups_hl_graph.External.{External}
use cartesi_rollups_hl_graph.Data.{SynchronizerFetch, ProcessOutputData}
use cartesi_rollups_hl_graph.Store.{Db, background, for_each}
use cartesi_rollups_hl_graph.Decoder.{handle_output_v2}
use cartesi_rollups_hl_graph.Repository.Synchronizer as Fetches
use cartesi_rollups_hl_graph.Synchronizer.{OutputNode, is_given, voucher_ids}

abbrev pub default_batch_size : ℕ
default_batch_size = 10

-- The variables of the query.
pub record VoucherRequest : Type 0 where
  pub batch_size : ℕ
  pub after : Option Text

pub record VoucherNode : Type 0 where
  pub index : ℕ
  pub input_index : ℕ
  pub destination : Text
  pub payload : Text

pub record VoucherPage : Type 0 where
  pub vouchers : List VoucherNode
  pub end_cursor : Text

pub record Round : Type 0 where
  pub now : ℕ
  pub answer : VoucherRequest → Result VoucherPage

-- The worker: the cursor of its fetcher, and the database.
pub record VoucherWorker : Type 0 where
  pub cursor_after : Text
  pub db : Db

-- A worker with a new fetcher.
abbrev pub fresh : Db → VoucherWorker
fresh db = record { cursor_after = []; db = db }

unfoldable pub request : Text → VoucherRequest
request cursor = record {
  batch_size = default_batch_size;
  after = if is_given cursor then some cursor else none;
}

unfoldable pub on_db : {A : Type 0} → Exec Db A → Exec VoucherWorker A
on_db m w = ((m w.db).0, record w { db = (m w.db).1 })

abbrev pub output_of : VoucherNode → OutputNode
output_of n = record { index = n.index; input_index = n.input_index; blob = n.payload }

unfoldable pub page_fetch : ℕ → Text → VoucherPage → SynchronizerFetch
page_fetch now cursor page = record {
  timestamp_after = now;
  ini_cursor_after = cursor;
  log_vouchers_ids = voucher_ids (map output_of page.vouchers);
  end_cursor_after = page.end_cursor;
  ini_input_cursor_after = [];
  end_input_cursor_after = [];
  ini_report_cursor_after = [];
  end_report_cursor_after = [];
}

-- The cursor is moved before the page is noted.
unfoldable pub note_cursor : ℕ → VoucherPage → Exec VoucherWorker (Unit {0})
note_cursor now page w =
    (on_db (Fetches.create background (page_fetch now w.cursor_after page)) >> pure tt)
      (record w { cursor_after = page.end_cursor })

unfoldable pub note_page : ℕ → VoucherPage → Exec VoucherWorker (Unit {0})
note_page now page = if is_given page.end_cursor then note_cursor now page else pure tt

unfoldable pub take_cursor : Option SynchronizerFetch → Exec VoucherWorker (Unit {0})
take_cursor none w = (ok tt, w)
take_cursor (some f) w = (ok tt, record w { cursor_after = f.end_cursor_after })

-- What the worker takes over from the last fetch that is stored.
unfoldable pub take_over : Exec VoucherWorker (Unit {0})
unfolding take_cursor
take_over = on_db Fetches.get_last_fetched >>= take_cursor

abbrev pub output_data : VoucherNode → ProcessOutputData
output_data n = record {
  output_index = n.index;
  input_index = n.input_index;
  payload = n.payload;
  destination = n.destination;
}

module _ ⦃x : External⦄ where
  unfoldable pub store_node : VoucherNode → Exec Db (Unit {0})
  store_node n = handle_output_v2 background (output_data n)

  -- An error of the fetch is only logged.
  unfoldable pub handle_page : ℕ → Result VoucherPage → Exec VoucherWorker (Unit {0})
  handle_page now (err e) = pure tt
  handle_page now (ok page) = on_db (for_each store_node page.vouchers) >> note_page now page

  unfoldable pub fetch_round : Round → Exec VoucherWorker (Unit {0})
  fetch_round r w = handle_page r.now (r.answer (request w.cursor_after)) w

  -- The loop, with its rounds up to the end of the context.
  unfoldable pub poll_rounds : Round → List Round → Exec VoucherWorker (Unit {0})
  poll_rounds r [] = fetch_round r
  poll_rounds r (next ∷ later) = fetch_round r >> poll_rounds next later

  unfoldable pub voucher_polling : Round → List Round → Exec VoucherWorker (Unit {0})
  voucher_polling r later = take_over >> poll_rounds r later
