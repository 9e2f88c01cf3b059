-- ===== src/Rollup/State.antt =====
-- internal/model/state.go: the idle, advance and inspect states, and how each is finished. The
-- inspect state points at an inspect of the model; the pointer is its position there. The errors
-- that the idle and the inspect state return for an operation that they refuse are told apart by the
-- state.
use cartesi_rollups_hl_graph.Base.{
  ℕ, Bool, true, false, none, some, List, [], ◌∷◌, Text, decimal, ◌==◌, if◌then◌else◌, Result, ok,
  err, idle_state, Exec, ◌>>◌, pure, ℤ, pos, negsuc, zero, suc,
}
use cartesi_rollups_hl_graph.External.{External}
use cartesi_rollups_hl_graph.Data.{
  CompletionStatus, status_unprocessed, status_accepted, status_exception, ConvenienceVoucher,
  ConvenienceNotice, ConvenienceFilter, Report, AdvanceInput, InspectReport, InspectInput,
}
use cartesi_rollups_hl_graph.Store.{Db, background, for_each}
use cartesi_rollups_hl_graph.Decoder.{
  handle_output, convert_voucher_payload_to_v2, convert_notice_payload_to_v2,
}
use cartesi_rollups_hl_graph.Repository.Report
use cartesi_rollups_hl_graph.Repository.Input

-- rollupsStateAdvance
pub record Advance : Type 0 where
  pub input : AdvanceInput
  pub vouchers : List ConvenienceVoucher
  pub notices : List ConvenienceNotice
  pub reports : List Report

-- rollupsStateInspect
pub record Inspect : Type 0 where
  pub at : ℕ
  pub index : ℕ
  pub reports : List InspectReport

pub data RollupsState : Type 0 where
  idle : RollupsState
  advance : Advance → RollupsState
  inspect : Inspect → RollupsState

-- The decoder and the report repository may be missing.
pub record NonodoModel : Type 0 where
  pub inspects : List InspectInput
  pub state : RollupsState
  pub has_decoder : Bool
  pub has_reports : Bool
  pub db : Db

-- newRollupsStateAdvance and newRollupsStateInspect
unfoldable pub new_advance : AdvanceInput → RollupsState
new_advance input = advance (record { input = input; vouchers = []; notices = []; reports = [] })

unfoldable pub new_inspect : ℕ → InspectInput → RollupsState
new_inspect at input = inspect (record { at = at; index = input.index; reports = [] })

-- What `finish` writes into the input of the state before it talks to the database.
unfoldable pub settle : CompletionStatus → Advance → Advance
settle status a =
    if status == status_accepted
    then record a {
      input = record (a.input) { status = status; vouchers = a.vouchers; notices = a.notices };
    }
    else record a { input = record (a.input) { status = status } }

-- `rollupsStateAdvance.registerException`
unfoldable pub fail : Text → Advance → Advance
fail payload a = record a {
  input = record (a.input) { status = status_exception; reports = a.reports; exception = payload };
}

module _ ⦃x : External⦄ where
  unfoldable pub send_voucher : ConvenienceVoucher → Exec Db (Unit {0})
  send_voucher v =
      handle_output background v.destination (convert_voucher_payload_to_v2 v.payload) v.input_index
        v.output_index

  unfoldable pub send_all_input_vouchers_to_decoder : List ConvenienceVoucher → Exec Db (Unit {0})
  send_all_input_vouchers_to_decoder = for_each send_voucher

  -- The destination of a notice is the zero address.
  unfoldable pub send_notice : ConvenienceNotice → Exec Db (Unit {0})
  send_notice n =
      handle_output background 0 (convert_notice_payload_to_v2 n.payload) n.input_index
        n.output_index

  unfoldable pub send_all_input_notices_to_decoder : List ConvenienceNotice → Exec Db (Unit {0})
  send_all_input_notices_to_decoder = for_each send_notice

  unfoldable pub save_report : Report → Exec Db (Unit {0})
  save_report r = Report.create background r >> pure tt

  unfoldable pub save_all_reports : Bool → List Report → Exec Db (Unit {0})
  save_all_reports false rs = pure tt
  save_all_reports true rs = for_each save_report rs

  update_input : AdvanceInput → Exec Db (Unit {0})
  update_input i = Input.update_input background i >> pure tt

  send_outputs : Bool → CompletionStatus → Advance → Exec Db (Unit {0})
  send_outputs false status a = pure tt
  send_outputs true status a =
      if status == status_accepted
      then (do
        send_all_input_vouchers_to_decoder a.vouchers
        send_all_input_notices_to_decoder a.notices)
      else pure tt

  -- The statements of `rollupsStateAdvance.finish`.
  unfoldable pub finish_advance : Bool → Bool → CompletionStatus → Advance → Exec Db (Unit {0})
  unfolding send_outputs update_input settle
  finish_advance has_decoder has_reports status a = do
    send_outputs has_decoder status a
    save_all_reports has_reports a.reports
    update_input (settle status a).input

  unfoldable pub except_advance : Bool → Text → Advance → Exec Db (Unit {0})
  unfolding update_input fail
  except_advance has_reports payload a = do
    update_input (fail payload a).input
    save_all_reports has_reports a.reports

  -- The filter of `getProcessedInputCount`.
  unfoldable pub processed_filter : List ConvenienceFilter
  processed_filter =
      record {
        field = some "Status";
        eq = none;
        ne = some (decimal status_unprocessed);
        gt = none;
        gte = none;
        lt = none;
        lte = none;
      }
      ∷ []

  unfoldable pub get_processed_input_count : Exec Db ℕ
  get_processed_input_count = Input.count processed_filter

-- Writing through the pointer of the inspect state.
unfoldable pub modify_at : ℕ → (InspectInput → InspectInput) → List InspectInput → List InspectInput
modify_at i f [] = []
modify_at zero f (p ∷ ps) = f p ∷ ps
modify_at (suc i) f (p ∷ ps) = p ∷ modify_at i f ps

unfoldable pub close_advance :
    NonodoModel → Advance → Result (Unit {0}) × Db → Result (Unit {0}) × NonodoModel
close_advance m a (r, db) = (r, record m { state = advance a; db = db })

-- The count is taken after the status is written, and an error leaves the status written.
unfoldable pub close_inspect :
    NonodoModel → Inspect → CompletionStatus → Result ℕ × Db → Result (Unit {0}) × NonodoModel
unfolding modify_at
close_inspect m s status (ok n, db) = (
  ok tt,
  record m {
    inspects =
        modify_at s.at
          (λ i. record i { status = status; processed_input_count = pos n; reports = s.reports })
          m.inspects;
    db = db;
  },
)
close_inspect m s status (err e, db) = (
  err e,
  record m { inspects = modify_at s.at (λ i. record i { status = status }) m.inspects; db = db },
)

-- `getProcessedInputCount` returns -1 beside an error.
or_minus_one : Result ℕ → ℤ
or_minus_one (ok n) = pos n
or_minus_one (err e) = negsuc 0

module _ ⦃x : External⦄ where
  unfoldable pub finish_state : RollupsState → CompletionStatus → Exec NonodoModel (Unit {0})
  unfolding close_advance close_inspect settle
  finish_state idle status m = (ok tt, m)
  finish_state (advance a) status m =
      close_advance m (settle status a) (finish_advance m.has_decoder m.has_reports status a m.db)
  finish_state (inspect s) status m = close_inspect m s status (get_processed_input_count m.db)

  -- `m.state.finish(status)`
  unfoldable pub finish : CompletionStatus → Exec NonodoModel (Unit {0})
  unfolding finish_state
  finish status m = finish_state m.state status m

  -- An error of the count is ignored here.
  unfoldable pub except_state : RollupsState → Text → Exec NonodoModel (Unit {0})
  unfolding close_advance fail or_minus_one modify_at
  except_state idle payload m = (err idle_state, m)
  except_state (advance a) payload m =
      close_advance m (fail payload a) (except_advance m.has_reports payload a m.db)
  except_state (inspect s) payload m =
      let (n, db) = get_processed_input_count m.db in
      (
        ok tt,
        record m {
          inspects =
              modify_at s.at
                (λ i. record i {
                  status = status_exception;
                  processed_input_count = or_minus_one n;
                  reports = s.reports;
                  exception = payload;
                })
                m.inspects;
          db = db;
        },
      )

  -- `m.state.registerException(payload)`
  unfoldable pub except : Text → Exec NonodoModel (Unit {0})
  unfolding except_state
  except payload m = except_state m.state payload m
