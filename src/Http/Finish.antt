-- ===== src/Http/Finish.antt =====
-- internal/rollup/rollup.go: the handler of /finish. The sequencer, which may be nil, is the interface
-- that the handler calls.
use cartesi_rollups_hl_graph.Base.{
  ℕ, zero, suc, Bool, true, false, Option, none, some, Text, codes, text_eq, if◌then◌else◌,
  canceled, Result, ok, Exec, pure, ◌>>=◌,
}
use cartesi_rollups_hl_graph.External.{External}
use cartesi_rollups_hl_graph.Http.{
  Request, Response, Others, string, error_text, json, respond, with_body,
}
use cartesi_rollups_hl_graph.Http.Convert.{RollupRequest, convert_input}
use cartesi_rollups_hl_graph.Rollup.State.{NonodoModel}
use cartesi_rollups_hl_graph.Rollup.Operations.{NextInput}

-- `FinishJSONRequestBody`
pub record FinishRequest : Type 0 where
  pub status : Text

abbrev pub finish_retries : ℕ
finish_retries = 50

abbrev pub Sequencer : Type 0
Sequencer = Bool → Exec NonodoModel (Option NextInput)

-- The `switch` on the status.
unfoldable pub accepted_of : Text → Option Bool
accepted_of status =
    if text_eq status (codes "accept")
    then some true
    else if text_eq status (codes "reject")
    then some false
    else none

-- The pause behind a poll that handed out nothing.
abbrev pub pause :
    Option NonodoModel
    → NonodoModel
    → Exec NonodoModel (Response RollupRequest)
    → Result (Response RollupRequest) × NonodoModel
pause none m rest = (ok (respond 500 (error_text canceled)), m)
pause (some n) m rest = rest n

module _ ⦃x : External⦄ where
  unfoldable pub polled :
      Others
      → ℕ
      → Exec NonodoModel (Response RollupRequest)
      → Option NextInput
      → Exec NonodoModel (Response RollupRequest)
  polled others i rest none m = pause (others i m) m rest
  polled others i rest (some input) m = (ok (respond 200 (json (convert_input input))), m)

  -- The loop, with `n` polls left and the next one the poll `i`.
  unfoldable pub poll :
      Exec NonodoModel (Option NextInput)
      → Others
      → ℕ
      → ℕ
      → Exec NonodoModel (Response RollupRequest)
  unfolding polled
  poll next others zero i = pure (respond 202 (string "no rollup request available"))
  poll next others (suc n) i =
      let rest = poll next others n (suc i) in next >>= polled others i rest

  unfoldable pub poll_sequencer :
      Option Sequencer → Others → Bool → Exec NonodoModel (Response RollupRequest)
  poll_sequencer none others accepted = pure (respond 500 (string "sequencer not available"))
  poll_sequencer (some sequencer) others accepted =
      poll (sequencer accepted) others finish_retries 0

  unfoldable pub with_status :
      Option Sequencer → Others → Option Bool → Exec NonodoModel (Response RollupRequest)
  unfolding poll_sequencer
  with_status sequencer others none = pure (respond 400 (string "invalid value for status"))
  with_status sequencer others (some accepted) = poll_sequencer sequencer others accepted

  -- Finish
  unfoldable pub finish :
      Option Sequencer → Others → Request FinishRequest → Exec NonodoModel (Response RollupRequest)
  unfolding with_status with_body
  finish sequencer others r = with_body r (λ b. with_status sequencer others (accepted_of b.status))
