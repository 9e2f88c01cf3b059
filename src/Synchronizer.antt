-- ===== src/Synchronizer.antt =====
-- internal/convenience/synchronizer/graphile_synchornizer.go and the cursors of graphile_fetcher.go: a
-- fetched batch is stored in one transaction, and the cursors of the fetcher are moved behind it. The
-- request itself, over HTTP, is outside; its answer is the argument. Indices are not negative. A panic ends
-- the process, and the engine drops the open transaction as a rollback does.
pub mod Writes
pub mod Batch
pub mod Polling
pub mod Restart
use cartesi_rollups_hl_graph.Base.{
  ℕ, Bool, true, false, ◌||◌, Option, none, some, List, [], ◌∷◌, ◌++◌, Text, codes, decimal,
  if◌then◌else◌, Result, ok, err, Exec, ◌>>=◌, ◌>>◌, pure,
}
use cartesi_rollups_hl_graph.External.{External}
use cartesi_rollups_hl_graph.Data.{SynchronizerFetch, status_unprocessed}
use cartesi_rollups_hl_graph.Store.{Db, Context, for_each, start_transaction, commit, rollback}
use cartesi_rollups_hl_graph.Decoder.{handle_output_v2, handle_input, handle_report}
use cartesi_rollups_hl_graph.Repository.Synchronizer

-- The nodes of the answer, and the end cursors, which may be empty.
pub record OutputNode : Type 0 where
  pub index : ℕ
  pub input_index : ℕ
  pub blob : Text

pub record InputNode : Type 0 where
  pub index : ℕ
  pub blob : Text

pub record OutputResponse : Type 0 where
  pub outputs : List OutputNode
  pub outputs_end : Text
  pub inputs : List InputNode
  pub inputs_end : Text
  pub reports : List OutputNode
  pub reports_end : Text

-- The cursors of the fetcher.
pub record Cursors : Type 0 where
  pub cursor_after : Text
  pub cursor_input_after : Text
  pub cursor_report_after : Text

pub record Synchronizing : Type 0 where
  pub cursors : Cursors
  pub db : Db

-- len(s) > 0
abbrev pub is_given : Text → Bool
is_given [] = false
is_given (c ∷ s) = true

-- The end cursor that is noted for one kind of node.
unfoldable pub end_cursor : Text → Text → Text
end_cursor fetched current =
    if is_given fetched then fetched else if is_given current then current else []

unfoldable pub has_more : OutputResponse → Bool
has_more r = is_given r.inputs_end || is_given r.outputs_end || is_given r.reports_end

unfoldable pub voucher_ids : List OutputNode → Text
voucher_ids [] = []
voucher_ids (n ∷ []) = decimal n.input_index ++ codes ":" ++ decimal n.index
voucher_ids (n ∷ m ∷ ns) =
    decimal n.input_index ++ codes ":" ++ decimal n.index ++ codes ";" ++ voucher_ids (m ∷ ns)

-- `now` is the time of the call in milliseconds.
unfoldable pub synchronize_fetch : Cursors → ℕ → OutputResponse → SynchronizerFetch
synchronize_fetch c now r = record {
  timestamp_after = now;
  ini_cursor_after = c.cursor_after;
  log_vouchers_ids = voucher_ids r.outputs;
  end_cursor_after = end_cursor r.outputs_end c.cursor_after;
  ini_input_cursor_after = c.cursor_input_after;
  end_input_cursor_after = end_cursor r.inputs_end c.cursor_input_after;
  ini_report_cursor_after = c.cursor_report_after;
  end_report_cursor_after = end_cursor r.reports_end c.cursor_report_after;
}

unfoldable pub move_to : Text → Text → Text
move_to cursor dest = if is_given cursor then cursor else dest

-- The loop over the cursors at the end.
unfoldable pub moved : Cursors → SynchronizerFetch → Cursors
unfolding move_to
moved c f = record {
  cursor_after = move_to f.end_cursor_after c.cursor_after;
  cursor_input_after = move_to f.end_input_cursor_after c.cursor_input_after;
  cursor_report_after = move_to f.end_report_cursor_after c.cursor_report_after;
}

-- What `Start` takes over from the last fetch that is stored.
unfoldable pub resume : Option SynchronizerFetch → Cursors → Cursors
resume none c = c
resume (some f) c = record {
  cursor_after = f.end_cursor_after;
  cursor_input_after = f.end_input_cursor_after;
  cursor_report_after = f.end_report_cursor_after;
}

unfoldable pub record_fetch : Context → Bool → SynchronizerFetch → Exec Db (Unit {0})
record_fetch ctx more f = if more then Synchronizer.create ctx f >> pure tt else pure tt

module _ ⦃x : External⦄ where
  unfoldable pub store_output : Context → OutputNode → Exec Db (Unit {0})
  store_output ctx n = handle_output_v2 ctx (record {
    output_index = n.index;
    input_index = n.input_index;
    payload = n.blob;
    destination = n.blob;
  })

  unfoldable pub store_input : Context → InputNode → Exec Db (Unit {0})
  store_input ctx n = handle_input ctx n.index n.blob status_unprocessed

  unfoldable pub store_report : Context → OutputNode → Exec Db (Unit {0})
  store_report ctx n = handle_report ctx n.input_index n.index n.blob

  unfoldable pub store_nodes : Context → OutputResponse → Exec Db (Unit {0})
  store_nodes ctx r = do
    for_each (store_output ctx) r.outputs
    for_each (store_input ctx) r.inputs
    for_each (store_report ctx) r.reports

  -- The statements of `handleGraphileResponse`.
  unfoldable pub store_response : Context → Cursors → ℕ → OutputResponse → Exec Db (Unit {0})
  store_response ctx c now r = do
    store_nodes ctx r
    record_fetch ctx (has_more r) (synchronize_fetch c now r)

  unfoldable pub move_on :
      Cursors → Cursors → Result (Unit {0}) × Db → Result (Unit {0}) × Synchronizing
  move_on c later (ok _, db) = (ok tt, record { cursors = later; db = db })
  move_on c later (err e, db) = (err e, record { cursors = c; db = db })

  unfoldable pub handle_graphile_response :
      Context → ℕ → OutputResponse → Exec Synchronizing (Unit {0})
  unfolding move_on
  handle_graphile_response ctx now r s =
      move_on s.cursors (moved s.cursors (synchronize_fetch s.cursors now r))
        (store_response ctx s.cursors now r s.db)

unfoldable pub closed : Cursors → Result (Unit {0}) × Db → Result (Unit {0}) × Synchronizing
closed c (ok _, db) = (ok tt, record { cursors = c; db = db })
closed c (err e, db) = (err e, record { cursors = c; db = rollback db })

-- Commit, or roll back what failed.
unfoldable pub close_transaction :
    Result (Unit {0}) × Synchronizing → Result (Unit {0}) × Synchronizing
unfolding closed
close_transaction (err e, s) = (err e, record s { db = rollback s.db })
close_transaction (ok _, s) = closed s.cursors (commit s.db)

module _ ⦃x : External⦄ where
  in_transaction :
      ℕ → OutputResponse → Cursors → Result Context × Db → Result (Unit {0}) × Synchronizing
  in_transaction now r c (ok ctx, db) =
      close_transaction (handle_graphile_response ctx now r (record { cursors = c; db = db }))
  in_transaction now r c (err e, db) = (err e, record { cursors = c; db = db })

  unfoldable pub handle_with_db_transaction : ℕ → OutputResponse → Exec Synchronizing (Unit {0})
  unfolding in_transaction
  handle_with_db_transaction now r s = in_transaction now r s.cursors (start_transaction s.db)
