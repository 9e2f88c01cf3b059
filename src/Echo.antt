-- ===== src/Echo.antt =====
-- internal/echoapp/echoapp.go: the application that answers each advance by its payload. It talks to the
-- node through the client of the rollup API, whose calls are an interface here; an error of a call is an
-- error of its `Exec`. A round is one request to /finish and what follows it, and the worker goes from
-- round to round until one of them returns an error.
pub mod Node
pub mod Answers
pub mod Stored
pub mod Waiting
pub mod Progress
use cartesi_rollups_hl_graph.Base.{
  ℕ, zero, suc, ◌++◌, Text, codes, ◌==◌, if◌then◌else◌, wrong_response, Exec, ◌>>=◌, ◌>>◌, pure,
  raise,
}
use cartesi_rollups_hl_graph.Http.{Response, Body, string, error_text, json, no_content}
use cartesi_rollups_hl_graph.Http.Outputs.{VoucherRequest, PayloadRequest}
use cartesi_rollups_hl_graph.Http.Finish.{FinishRequest}
use cartesi_rollups_hl_graph.Http.Convert.{Metadata, RollupRequest, advance_state, inspect_state}

-- The calls of `ClientWithResponses`, in a world `S`.
pub record Client (S : Type 0) : Type 0 where
  pub finish : FinishRequest → Exec S (Response RollupRequest)
  pub add_voucher : VoucherRequest → Exec S (Response ℕ)
  pub add_notice : PayloadRequest → Exec S (Response ℕ)
  pub add_report : PayloadRequest → Exec S (Response (Unit {0}))

abbrev pub finish_request : FinishRequest
finish_request = record { status = codes "accept" }

module _ {S : Type 0} where
  -- Any status but 200 is an error.
  unfoldable pub accepted : {B : Type 0} → Response B → Exec S (Unit {0})
  accepted r = if r.status == 200 then pure tt else raise wrong_response

  module _ (client : Client S) where
    unfoldable pub handle_advance : Metadata → Text → Exec S (Unit {0})
    handle_advance metadata payload = do
      voucher ← client.add_voucher (record { destination = metadata.msg_sender; payload = payload })
      accepted voucher
      notice ← client.add_notice (record { payload = payload ++ codes "ff" })
      accepted notice
      report ← client.add_report (record { payload = payload })
      accepted report

    unfoldable pub handle_inspect : Text → Exec S (Unit {0})
    handle_inspect payload = do
      report ← client.add_report (record { payload = payload })
      accepted report

    -- The switch on the type of the request.
    unfoldable pub handle_body : Body RollupRequest → Exec S (Unit {0})
    handle_body (json (advance_state metadata payload)) = handle_advance metadata payload
    handle_body (json (inspect_state payload)) = handle_inspect payload
    handle_body _ = raise wrong_response

    unfoldable pub handle_response : Response RollupRequest → Exec S (Unit {0})
    unfolding handle_body
    handle_response r =
        if r.status == 202
        then pure tt
        else if r.status == 200
        then handle_body r.body
        else raise wrong_response

    unfoldable pub echo_round : Exec S (Unit {0})
    unfolding handle_response
    echo_round = client.finish finish_request >>= handle_response

    -- The loop of Start, for `n` rounds.
    unfoldable pub echo : ℕ → Exec S (Unit {0})
    unfolding echo_round
    echo zero = pure tt
    echo (suc n) = echo_round >> echo n
