-- ===== src/Rollup/Operations.antt =====
-- internal/model/model.go and internal/model/sequencer.go: the operations on the shared model.
use cartesi_rollups_hl_graph.Base.{
  ℕ, suc, Bool, Option, none, some, List, [], ◌∷◌, ◌++◌, Text, length, get_elem?, ◌==◌,
  if◌then◌else◌, ℤ, pos, negsuc, Result, ok, err, invalid_index, panic, Exec, ◌>>=◌, ◌>>◌, pure,
}
use cartesi_rollups_hl_graph.External.{Address, External}
use cartesi_rollups_hl_graph.Data.{
  CompletionStatus, status_unprocessed, status_accepted, status_rejected, AdvanceInput,
  InspectInput,
}
use cartesi_rollups_hl_graph.Store.{Db, background}
use cartesi_rollups_hl_graph.Repository.Input
use cartesi_rollups_hl_graph.Rollup.Outputs
use cartesi_rollups_hl_graph.Rollup.State.{
  RollupsState, idle, NonodoModel, new_advance, new_inspect, finish, except,
}

-- The next input, which is an advance or an inspect.
pub data NextInput : Type 0 where
  advance_input : AdvanceInput → NextInput
  inspect_input : InspectInput → NextInput

unfoldable pub new_nonodo_model : Bool → Bool → Db → NonodoModel
new_nonodo_model has_decoder has_reports db = record {
  inspects = [];
  state = idle;
  has_decoder = has_decoder;
  has_reports = has_reports;
  db = db;
}

-- A database action on behalf of the model.
abbrev pub on_db : {A : Type 0} → Exec Db A → Exec NonodoModel A
on_db f m = ((f m.db).0, record m { db = (f m.db).1 })

-- An action of the state.
abbrev pub on_state : {A : Type 0} → Exec RollupsState A → Exec NonodoModel A
on_state f m = ((f m.state).0, record m { state = (f m.state).1 })

-- The input of `AddAdvanceInput`.
unfoldable pub new_advance_input : Address → Text → ℕ → ℕ → ℕ → AdvanceInput
new_advance_input sender payload block_number timestamp index = record {
  index = index;
  status = status_unprocessed;
  msg_sender = sender;
  payload = payload;
  block_number = block_number;
  block_timestamp = timestamp;
  prev_randao = [];
  app_contract = 0;
  vouchers = [];
  notices = [];
  reports = [];
  exception = [];
}

unfoldable pub add_inspect_input : Text → NonodoModel → ℕ × NonodoModel
add_inspect_input payload m =
    let index = length m.inspects in
    (
      index,
      record m {
        inspects =
            m.inspects
            ++ record {
              index = index;
              status = status_unprocessed;
              payload = payload;
              processed_input_count = pos 0;
              reports = [];
              exception = [];
            }
              ∷ [];
      },
    )

inspect_at : Option InspectInput → Result InspectInput
inspect_at none = err invalid_index
inspect_at (some i) = ok i

-- A negative index, which passes the test of the source, is a panic.
unfoldable pub get_inspect_input : ℤ → NonodoModel → Result InspectInput
unfolding inspect_at
get_inspect_input (pos index) m = inspect_at (get_elem? m.inspects index)
get_inspect_input (negsuc n) m = err panic

-- The position and the value of the first inspect that is not processed.
unfoldable pub first_unprocessed : ℕ → List InspectInput → Option (ℕ × InspectInput)
first_unprocessed at [] = none
first_unprocessed at (i ∷ is) =
    let rest = first_unprocessed (suc at) is in
    if i.status == status_unprocessed then some (at, i) else rest

abbrev pub status_of : Bool → CompletionStatus
status_of accepted = if accepted then status_accepted else status_rejected

module _ ⦃x : External⦄ where
  unfoldable pub add_advance_input : Address → Text → ℕ → ℕ → ℕ → Exec NonodoModel (Unit {0})
  unfolding new_advance_input
  add_advance_input sender payload block_number timestamp index =
      on_db
        (Input.create background (new_advance_input sender payload block_number timestamp index))
      >> pure tt

  unfoldable pub start_advance : Option AdvanceInput → Exec NonodoModel (Option NextInput)
  start_advance none m = (ok none, record m { state = idle })
  start_advance (some i) m = (ok (some (advance_input i)), record m { state = new_advance i })

  unfoldable pub start_inspect : Option (ℕ × InspectInput) → Exec NonodoModel (Option NextInput)
  unfolding start_advance
  start_inspect (some (at, i)) m =
      (ok (some (inspect_input i)), record m { state = new_inspect at i })
  start_inspect none m = (on_db (Input.find_by_status status_unprocessed) >>= start_advance) m

  -- The part of `FinishAndGetNext` behind the finish: an inspect first, then an advance.
  unfoldable pub get_next : Exec NonodoModel (Option NextInput)
  unfolding start_inspect
  get_next m = start_inspect (first_unprocessed 0 m.inspects) m

  unfoldable pub finish_and_get_next : Bool → Exec NonodoModel (Option NextInput)
  finish_and_get_next accepted = finish (status_of accepted) >> get_next

  -- `FinishAndGetNext` of sequencer.go, which both sequencers call.
  unfoldable pub sequencer_finish_and_get_next : Bool → Exec NonodoModel (Option NextInput)
  sequencer_finish_and_get_next accept = finish (status_of accept) >> get_next

  unfoldable pub add_voucher : Address → Text → Exec NonodoModel ℕ
  add_voucher destination payload = on_state (Outputs.add_voucher destination payload)

  unfoldable pub add_voucher_with_input : Address → Text → ℕ → Exec NonodoModel ℕ
  add_voucher_with_input destination payload input_index =
      on_state (Outputs.add_voucher_with_input destination payload input_index)

  unfoldable pub add_notice : Text → Exec NonodoModel ℕ
  add_notice payload = on_state (Outputs.add_notice payload)

  unfoldable pub add_notice_with_input : Text → ℕ → Exec NonodoModel ℕ
  add_notice_with_input payload input_index =
      on_state (Outputs.add_notice_with_input payload input_index)

  to_idle : Exec NonodoModel (Unit {0})
  to_idle m = (ok tt, record m { state = idle })

  unfoldable pub register_exception : Text → Exec NonodoModel (Unit {0})
  unfolding to_idle
  register_exception payload = except payload >> to_idle

unfoldable pub add_report : Text → Exec NonodoModel (Unit {0})
add_report payload = on_state (Outputs.add_report payload)
