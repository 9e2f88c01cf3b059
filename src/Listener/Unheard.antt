-- ===== src/Listener/Unheard.antt =====
-- internal/convenience/output_exec_listener.go: what the worker makes of the events of the contract.
use cartesi_rollups_hl_graph.Base.{
  ◌≡◌, refl, ap, ◌∙◌, List, [], ◌∷◌, Error, Result, ok, err, Result-cases, inl, inr, wrong_event,
}
use cartesi_rollups_hl_graph.Store.{Db}
use cartesi_rollups_hl_graph.Inputter.Watch.{End, context_done, closed, broken}
use cartesi_rollups_hl_graph.Listener.{on_event}
use cartesi_rollups_hl_graph.Listener.Watch.{
  Log, Client, Session, Running, get_event_data, handle_log, handle_logs, past_logs,
  read_past_executions, end_session, after_subscribe, after_past, watch_executions,
}

handle_log-err :
    (client : Client) (log : Log) (db : Db) → (e : Error) × (handle_log client log db ≡ (err e, db))
unfolding handle_log get_event_data on_event
handle_log-err client log db = elim (Result-cases (client.block_by_number log.block_number)) [
  | inr (e, h) ↦ (e, rw h refl)
  | inl (time, h) ↦ elim (Result-cases (client.unpack log.payload)) [
    | inr (e, k) ↦ (e, rw (h, k) refl)
    | inl (args, k) ↦ (wrong_event, rw (h, k) refl)
  ]
]

handle_logs-same : (client : Client) (logs : List Log) (db : Db) → handle_logs client logs db ≡ db
unfolding handle_logs
handle_logs-same client [] db = refl
handle_logs-same client (log ∷ logs) db =
    let (e, h) = handle_log-err client log db in
    ap (λ c. handle_logs client logs c.1) h ∙ handle_logs-same client logs db

-- What follows leaves the database as it is.
abbrev Keeps : (Db → Running) → Type 0
Keeps rest = (db : Db) → (rest db).1 ≡ db

end_session-Keeps :
    (ended : End) (rest : Db → Running) → Keeps rest → Keeps (λ db. end_session ended db rest)
unfolding end_session
end_session-Keeps context_done rest h db = refl
end_session-Keeps closed rest h db = refl
end_session-Keeps (broken e) rest h db = h db

after_subscribe-Keeps :
    (s : Session) (r : Result (Unit {0})) (rest : Db → Running)
    → Keeps rest
    → Keeps (after_subscribe s rest r)
unfolding after_subscribe
after_subscribe-Keeps s (err e) rest h db = h db
after_subscribe-Keeps s (ok u) rest h db =
    ap (λ d. (end_session s.ended d rest).1) (handle_logs-same s.client s.delivered db)
    ∙ end_session-Keeps s.ended rest h db

after_past-Keeps :
    (s : Session) (r : Result (List Log)) (rest : Db → Running)
    → Keeps rest
    → Keeps (λ db. after_past s rest (past_logs s.client r db))
unfolding after_past past_logs
after_past-Keeps s (err e) rest h db = h db
after_past-Keeps s (ok logs) rest h db =
    ap (λ d. (after_subscribe s rest s.subscribed d).1) (handle_logs-same s.client logs db)
    ∙ after_subscribe-Keeps s s.subscribed rest h db

watch_executions-Keeps : (ss : List Session) → Keeps (watch_executions ss)
unfolding watch_executions read_past_executions
watch_executions-Keeps [] db = refl
watch_executions-Keeps (s ∷ ss) db =
    after_past-Keeps s s.client.filter_logs (watch_executions ss) (watch_executions-Keeps ss) db

-- No event that the contract emits is taken for the execution of a voucher: HandleLog answers each log
-- with an error, and the worker, through any sessions with any logs, leaves the database as it was.
pub watch_executions_marks_nothing :
    (ss : List Session) (client : Client) (log : Log) (db : Db)
    → ((watch_executions ss db).1 ≡ db) × ((e : Error) × (handle_log client log db ≡ (err e, db)))
watch_executions_marks_nothing ss client log db =
    (watch_executions-Keeps ss db, handle_log-err client log db)
