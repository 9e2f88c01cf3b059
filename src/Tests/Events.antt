-- ===== src/Tests/Events.antt =====
-- A run of the listener: the block of the first event cannot be read, the subscription of the first
-- session breaks, and the second session reads the past again before its context is done.
use cartesi_rollups_hl_graph.Base.{
  ℕ, ◌≡◌, refl, none, List, [], ◌∷◌, Text, Error, ok, err, canceled, not_found, wrong_event, Result,
  zero, suc,
}
use cartesi_rollups_hl_graph.Store.{calm}
use cartesi_rollups_hl_graph.Inputter.Watch.{context_done, broken}
use cartesi_rollups_hl_graph.Listener.{on_event}
use cartesi_rollups_hl_graph.Listener.Watch.{
  Log, Client, Session, watch_executions, handle_log, get_event_data,
}
use cartesi_rollups_hl_graph.Listener.Unheard.{watch_executions_marks_nothing}
use cartesi_rollups_hl_graph.Tests.World.{tables}

abbrev known_block : ℕ → Result ℕ
known_block zero = err not_found
known_block (suc n) = ok n

abbrev arguments_of : Text → Result (ℕ × Text)
arguments_of [] = err not_found
arguments_of (a ∷ s) = ok (a, s)

abbrev past : List Log
past =
    record { block_number = 0; payload = 4 ∷ [] }
    ∷ record { block_number = 7; payload = 3 ∷ [] }
    ∷ []

abbrev client : Client
client = record { block_by_number = known_block; unpack = arguments_of; filter_logs = ok past }

abbrev sessions : List Session
sessions =
    record { client = client; subscribed = ok tt; delivered = []; ended = broken canceled }
    ∷ record { client = client; subscribed = ok tt; delivered = past; ended = context_done }
    ∷ []

abbrev execution : Log
execution = record { block_number = 7; payload = 3 ∷ 1 ∷ [] }

refuses : handle_log client execution (calm tables none) ≡ (err wrong_event, calm tables none)
unfolding handle_log get_event_data on_event
refuses = refl

watch_executions_marks_nothing_example :
    ((watch_executions sessions (calm tables none)).1 ≡ calm tables none)
    × ((e : Error) × (handle_log client execution (calm tables none) ≡ (err e, calm tables none)))
watch_executions_marks_nothing_example =
    watch_executions_marks_nothing sessions client execution (calm tables none)
