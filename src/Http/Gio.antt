-- ===== src/Http/Gio.antt =====
-- internal/rollup/rollup.go, fetcher.go and internal/dataavailability/syscoin.go: the handler of /gio,
-- which fetches a blob that the application asks for. `get` is the request to the Syscoin node with the
-- body of its answer, `remote` what Celestia's nodes give.
use cartesi_rollups_hl_graph.Base.{
  ℕ, none, some, ◌++◌, Text, codes, ◌==◌, if◌then◌else◌, Result, ok, err, panic, Exec, pure, raise,
}
use cartesi_rollups_hl_graph.External.{External}
use cartesi_rollups_hl_graph.Http.{Request, Response, string, error_text, json, respond, with_body}
use cartesi_rollups_hl_graph.DataAvailability.Celestia.{
  Remote, HttpCustomError, Message, literal, Fetched, fetched, refused, panicked, refuse,
  fetch_celestia,
}
use cartesi_rollups_hl_graph.DataAvailability.Celestia
use cartesi_rollups_hl_graph.Rollup.State.{NonodoModel}

pub record GioRequest : Type 0 where
  pub domain : ℕ
  pub id : Text

pub record GioResponse : Type 0 where
  pub code : ℕ
  pub «data» : Text

abbrev pub Get : Type 0
Get = Text → Result Text

abbrev pub syscoin_answer : Result Text → Fetched
syscoin_answer (ok body) = fetched body
syscoin_answer (err e) = refuse 500 none

-- `SyscoinClient.Fetch`
unfoldable pub fetch_syscoin : Get → Text → Fetched
fetch_syscoin get id = syscoin_answer (get (codes "https://poda.syscoin.org/vh/" ++ id))

module _ ⦃x : External⦄ (get : Get) (remote : Remote) where
  -- Fetcher
  unfoldable pub fetcher : GioRequest → Fetched
  fetcher r =
      if r.domain == 5700
      then fetch_syscoin get r.id
      else if r.domain == 714
      then fetch_celestia remote r.id
      else refuse 400 (some (literal "Unsupported domain"))

  -- The response to what was fetched. `Error()` of an error without a text dereferences nil.
  unfoldable pub answer_error : HttpCustomError → Exec NonodoModel (Response GioResponse)
  answer_error e = elim e.body [
    | none ↦ raise panic
    | some (literal s) ↦ pure (respond e.status (string s))
    | some (Celestia.error_text t) ↦ pure (respond e.status (error_text t))
  ]

  unfoldable pub answer : Fetched → Exec NonodoModel (Response GioResponse)
  unfolding answer_error
  answer (fetched blob) = pure (respond 200 (json (record { code = 42; «data» = blob })))
  answer (refused e) = answer_error e
  answer panicked = raise panic

  -- Gio
  unfoldable pub gio : Request GioRequest → Exec NonodoModel (Response GioResponse)
  gio r = with_body r (λ q. answer (fetcher q))
