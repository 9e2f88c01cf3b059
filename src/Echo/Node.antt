-- ===== src/Echo/Node.antt =====
-- internal/echoapp/echoapp.go with internal/rollup/rollup.go: the client of the application connected to
-- the handlers of the node. The generated client sends its bodies as JSON, and echo answers an error that
-- a handler returns by the status 500.
use cartesi_rollups_hl_graph.Base.{codes, some, Result, ok, err}
use cartesi_rollups_hl_graph.External.{External}
use cartesi_rollups_hl_graph.Http.{Request, Response, Others, error_text, respond}
use cartesi_rollups_hl_graph.Http.Outputs as Handlers
use cartesi_rollups_hl_graph.Http.Finish as Finish
use cartesi_rollups_hl_graph.Rollup.State.{NonodoModel}
use cartesi_rollups_hl_graph.Rollup.Operations.{sequencer_finish_and_get_next}
use cartesi_rollups_hl_graph.Echo.{Client}

abbrev pub posted : {B : Type 0} → B → Request B
posted b = record { content_type = codes "application/json"; body = ok b }

abbrev pub answered :
    {B : Type 0} → Result (Response B) × NonodoModel → Result (Response B) × NonodoModel
answered (ok r, m) = (ok r, m)
answered (err e, m) = (ok (respond 500 (error_text e)), m)

module _ ⦃x : External⦄ (others : Others) where
  abbrev pub node : Client NonodoModel
  node = record {
    finish =
        λ b m. answered (Finish.finish (some sequencer_finish_and_get_next) others (posted b) m);
    add_voucher = λ b m. answered (Handlers.add_voucher (posted b) m);
    add_notice = λ b m. answered (Handlers.add_notice (posted b) m);
    add_report = λ b m. answered (Handlers.add_report (posted b) m);
  }
