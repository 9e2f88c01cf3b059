-- ===== src/Listener/Watch.antt =====
-- internal/convenience/output_exec_listener.go: WatchExecutions, over the sessions that it goes through. A
-- session is one round of its loop: what the client gives in it, whether the subscription is made, the
-- logs that it delivers, and how it ends. The block that the logs are read from stays the same in every
-- session. After the last session the worker is still running.
use cartesi_rollups_hl_graph.Base.{
  ℕ, Option, none, some, List, [], ◌∷◌, Text, Result, ok, err, bind, canceled, Exec, ◌>>=◌, lift,
}
use cartesi_rollups_hl_graph.Store.{Db}
use cartesi_rollups_hl_graph.Inputter.Watch.{End, context_done, closed, broken}
use cartesi_rollups_hl_graph.Listener.{EventValue, uint64, bytes, on_event}

pub record Log : Type 0 where
  pub block_number : ℕ
  pub payload : Text

-- What the listener asks of the client and of the contract's ABI: the time of a block, the arguments of
-- an event, and the logs of the query. The ABI in internal/contracts/application.go has the event
-- OutputExecuted(uint64 outputIndex, bytes output), without indexed arguments.
pub record Client : Type 0 where
  pub block_by_number : ℕ → Result ℕ
  pub unpack : Text → Result (ℕ × Text)
  pub filter_logs : Result (List Log)

pub record Session : Type 0 where
  pub client : Client
  pub subscribed : Result (Unit {0})
  pub delivered : List Log
  pub ended : End

-- The result of the worker, if it has returned.
abbrev pub Running : Type 0
Running = Option (Result (Unit {0})) × Db

-- An action whose error is only logged.
abbrev pub attempt : {A : Type 0} → Exec Db A → Db → Db
attempt m db = (m db).1

module _ (client : Client) where
  -- GetEventData: the time, the block number and the values of the event.
  unfoldable pub get_event_data : Log → Result (ℕ × ℕ × List EventValue)
  get_event_data log = bind (client.block_by_number log.block_number) λ time.
      bind (client.unpack log.payload) λ (output_index, output).
        ok (time, log.block_number, uint64 output_index ∷ bytes output ∷ [])

  unfoldable pub handle_log : Log → Exec Db (Unit {0})
  handle_log log = lift (get_event_data log) >>= λ (_, _, values). on_event values

  -- The loop over logs, of the past and of the subscription alike.
  unfoldable pub handle_logs : List Log → Db → Db
  handle_logs [] db = db
  handle_logs (log ∷ logs) db = handle_logs logs (attempt (handle_log log) db)

  unfoldable pub past_logs : Result (List Log) → Exec Db (Unit {0})
  unfolding handle_logs
  past_logs (err e) db = (err e, db)
  past_logs (ok logs) db = (ok tt, handle_logs logs db)

  unfoldable pub read_past_executions : Exec Db (Unit {0})
  unfolding past_logs
  read_past_executions = past_logs client.filter_logs

-- What follows the last log of a subscription.
unfoldable pub end_session : End → Db → (Db → Running) → Running
end_session context_done db rest = (some (err canceled), db)
end_session closed db rest = (some (ok tt), db)
end_session (broken e) db rest = rest db

unfoldable pub after_subscribe : Session → (Db → Running) → Result (Unit {0}) → Db → Running
unfolding end_session
after_subscribe s rest (err e) db = rest db
after_subscribe s rest (ok u) db = end_session s.ended (handle_logs s.client s.delivered db) rest

unfoldable pub after_past : Session → (Db → Running) → Result (Unit {0}) × Db → Running
unfolding after_subscribe
after_past s rest (err e, db) = rest db
after_past s rest (ok u, db) = after_subscribe s rest s.subscribed db

-- The loop of WatchExecutions.
unfoldable pub watch_executions : List Session → Db → Running
unfolding after_past
watch_executions [] db = (none, db)
watch_executions (s ∷ ss) db =
    let rest = watch_executions ss in after_past s rest (read_past_executions s.client db)
