-- ===== src/Http/Answered.antt =====
-- internal/inspect/inspect.go with internal/model: a request that waits while the application serves
-- its inspect.
use cartesi_rollups_hl_graph.Base.{
  ℕ, suc, ◌≡◌, refl, ◌∙◌, Bool, true, false, Option, some, List, [], ◌∷◌, ◌++◌, map, Text, length,
  ◌==◌, if◌then◌else◌, pos, ok,
}
use cartesi_rollups_hl_graph.External.{External}
use cartesi_rollups_hl_graph.Data.{status_unprocessed, InspectReport, InspectInput}
use cartesi_rollups_hl_graph.Store.{Db}
use cartesi_rollups_hl_graph.Http.{Others, json, respond}
use cartesi_rollups_hl_graph.Http.Inspect.{
  accepted, rejected, poll, convert_input, completion_of, Returned, InspectResult,
}
use cartesi_rollups_hl_graph.Http.Inspect as Handler
use cartesi_rollups_hl_graph.Rollup.State.{idle, NonodoModel, get_processed_input_count}
use cartesi_rollups_hl_graph.Rollup.Operations.{add_inspect_input, get_inspect_input, status_of}
use cartesi_rollups_hl_graph.Rollup.Dispatch.{NoneWaiting}
use cartesi_rollups_hl_graph.Http.Served.{
  serve, payloads, map-encode, serve-inspects, get_elem?-last,
}

module _ ⦃x : External⦄ where
  convert-served :
      (i : InspectInput) (ps : List Text) (rs : List InspectReport) (accept : Bool) (n : ℕ)
      → payloads rs ≡ ps
      → convert_input
          (record i { status = status_of accept; processed_input_count = pos n; reports = rs })
        ≡ ok (record {
          status = if accept then accepted else rejected;
          reports = map x.hexutil_encode ps;
          exception_payload = x.hexutil_encode i.exception;
          processed_input_count = pos n;
        })
  unfolding convert_input completion_of
  convert-served i ps rs true n e = rw (map-encode x.hexutil_encode rs, e) refl
  convert-served i ps rs false n e = rw (map-encode x.hexutil_encode rs, e) refl

  -- A poll of an inspect that is processed ends the loop.
  polled-processed :
      (others : Others) (at : ℕ) (m : NonodoModel) (rest : NonodoModel → Option Returned)
      (i : InspectInput) (c : InspectResult)
      → convert_input i ≡ ok c
      → (i.status == status_unprocessed) ≡ false
      → Handler.polled others at m rest (ok i) ≡ some (ok (respond 200 (json c)), m)
  unfolding Handler.polled Handler.finished
  polled-processed others at m rest i c e f = rw (f, e) refl

  polled-waiting :
      (others : Others) (m : NonodoModel) (rest : NonodoModel → Option Returned) (i : InspectInput)
      (k : NonodoModel)
      → i.status ≡ status_unprocessed
      → others 0 m ≡ some k
      → Handler.polled others 0 m rest (ok i) ≡ rest k
  unfolding Handler.polled
  polled-waiting others m rest i k e o = rw (e, o) refl

  found_last :
      (m : NonodoModel) (is : List InspectInput) (i : InspectInput)
      → m.inspects ≡ is ++ i ∷ []
      → get_inspect_input (pos (length is)) m ≡ ok i
  unfolding get_inspect_input
  found_last m is i e = rw (e, get_elem?-last is i) refl

  status_of-processed : (accept : Bool) → (status_of accept == status_unprocessed) ≡ false
  status_of-processed true = refl
  status_of-processed false = refl

  -- A request to /inspect, at an idle model in which no inspect waits: if in the first pause of the
  -- handler the application fetches an input, posts reports and accepts or rejects, and the count of the
  -- processed inputs is read then, the second poll answers 200 with that verdict, with the reports in the
  -- order in which they were posted, without an exception, and with the count.
  pub inspect-serve :
      (others : Others) (fuel : ℕ) (payload : Text) (m : NonodoModel) (ps : List Text)
      (accept : Bool) (n : ℕ) (db : Db)
      → m.state ≡ idle
      → NoneWaiting m.inspects
      → ((k : NonodoModel) → others 0 k ≡ some (serve ps accept k))
      → get_processed_input_count m.db ≡ (ok n, db)
      → Handler.inspect others (suc (suc fuel)) payload m
        ≡ some (
          ok (
              respond 200 (
                json (record {
                  status = if accept then accepted else rejected;
                  reports = map x.hexutil_encode ps;
                  exception_payload = x.hexutil_encode [];
                  processed_input_count = pos n;
                }))),
          serve ps accept (add_inspect_input payload m).1,
        )
  unfolding Handler.inspect poll add_inspect_input
  inspect-serve others fuel payload m ps accept n db e h o c =
      let i : InspectInput = record {
        index = length m.inspects;
        status = status_unprocessed;
        payload = payload;
        processed_input_count = pos 0;
        reports = [];
        exception = [];
      } in
      let (rs, d, q) = serve-inspects m i ps accept n db e h refl c in
      let asked : NonodoModel = record m { inspects = m.inspects ++ i ∷ [] } in
      rw (found_last asked m.inspects i refl) (
        polled-waiting others asked _ i _ refl (o asked)
        ∙ rw (found_last (serve ps accept asked) m.inspects _ q) (
            polled-processed others 1 _ _ _ _ (convert-served i ps rs accept n d)
              (status_of-processed accept)))
