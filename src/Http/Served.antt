-- ===== src/Http/Served.antt =====
-- internal/model, as the application drives it through internal/rollup: an inspect is fetched, reported on
-- and ended.
use cartesi_rollups_hl_graph.Base.{
  ℕ, suc, ◌+◌, ◌≡◌, refl, ap, sym, ◌∙◌, Bool, true, Option, none, some, List, [], ◌∷◌, ◌++◌, map,
  Text, length, get_elem?, pos, Result, ok, err, proceed, arith,
}
use cartesi_rollups_hl_graph.External.{External}
use cartesi_rollups_hl_graph.Data.{status_unprocessed, AdvanceInput, InspectReport, InspectInput}
use cartesi_rollups_hl_graph.Store.{Db}
use cartesi_rollups_hl_graph.Repository.Input.{find_by_status}
use cartesi_rollups_hl_graph.Rollup.State.{
  Inspect, idle, inspect, NonodoModel, new_inspect, finish, finish_state, close_inspect, modify_at,
  get_processed_input_count,
}
use cartesi_rollups_hl_graph.Rollup.Operations.{
  first_unprocessed, start_advance, start_inspect, get_next, finish_and_get_next, add_report,
  status_of, on_db,
}
use cartesi_rollups_hl_graph.Rollup.Outputs
use cartesi_rollups_hl_graph.Rollup.Dispatch.{NoneWaiting}

-- The application posts its reports in order.
abbrev pub post_reports : List Text → NonodoModel → NonodoModel
post_reports [] m = m
post_reports (p ∷ ps) m = post_reports ps (add_report p m).1

-- The application fetches an input, posts reports and ends the input.
abbrev pub serve : ⦃x : External⦄ → List Text → Bool → NonodoModel → NonodoModel
serve ps accept m = (finish_and_get_next accept (post_reports ps (finish_and_get_next true m).1)).1

first_unprocessed-append :
    (n : ℕ) (ps : List InspectInput) (i : InspectInput)
    → NoneWaiting ps
    → i.status ≡ status_unprocessed
    → first_unprocessed n (ps ++ i ∷ []) ≡ some (n + length ps, i)
unfolding first_unprocessed
first_unprocessed-append n [] i h e = ground arith
first_unprocessed-append n (p ∷ ps) i (h, hs) e =
    rw h (first_unprocessed-append (suc n) ps i hs e ∙ ap (λ k. some (k, i)) (omega arith))

modify_at-append :
    (f : InspectInput → InspectInput) (ps : List InspectInput) (i : InspectInput)
    → modify_at (length ps) f (ps ++ i ∷ []) ≡ ps ++ f i ∷ []
unfolding modify_at
modify_at-append f [] i = refl
modify_at-append f (p ∷ ps) i = ap (λ l. p ∷ l) (modify_at-append f ps i)

pub get_elem?-last :
    (ps : List InspectInput) (i : InspectInput) → get_elem? (ps ++ i ∷ []) (length ps) ≡ some i
get_elem?-last [] i = refl
get_elem?-last (p ∷ ps) i = get_elem?-last ps i

unfoldable pub payloads : List InspectReport → List Text
payloads = map (λ r. r.payload)

payloads-append :
    (rs : List InspectReport) (r : InspectReport) (ps : List Text)
    → payloads (rs ++ r ∷ []) ++ ps ≡ payloads rs ++ r.payload ∷ ps
unfolding payloads
payloads-append [] r ps = refl
payloads-append (q ∷ rs) r ps = ap (λ l. q.payload ∷ l) (payloads-append rs r ps)

append_nil : (ps : List Text) → ps ++ [] ≡ ps
append_nil [] = refl
append_nil (p ∷ ps) = ap (λ l. p ∷ l) (append_nil ps)

-- The reports that are posted in the inspect state are collected in it, in order.
post_reports-inspect :
    (ps : List Text) (m : NonodoModel) (s : Inspect)
    → m.state ≡ inspect s
    → (u : Inspect) × (post_reports ps m ≡ record m { state = inspect u })
      × (u.at ≡ s.at)
      × (payloads u.reports ≡ payloads s.reports ++ ps)
unfolding add_report Outputs.add_report
post_reports-inspect [] m s e =
    (s, ap (λ t. record m { state = t }) e, refl, sym (append_nil (payloads s.reports)))
post_reports-inspect (p ∷ ps) m s e =
    let r : InspectReport = record {
      index = length s.reports;
      input_index = s.index;
      payload = p;
    } in
    let (u, q, at, d) =
      post_reports-inspect ps _ (record s { reports = s.reports ++ r ∷ [] }) refl in
    rw e (u, q, at, d ∙ payloads-append s.reports r ps)

pub map-encode :
    (f : Text → Text) (rs : List InspectReport) → map (λ r. f r.payload) rs ≡ map f (payloads rs)
unfolding payloads
map-encode f [] = refl
map-encode f (r ∷ rs) = ap (λ l. f r.payload ∷ l) (map-encode f rs)

module _ ⦃x : External⦄ where
  start_advance-inspects :
      (r : Result (Option AdvanceInput)) (m : NonodoModel)
      → (proceed r start_advance m).1.inspects ≡ m.inspects
  unfolding start_advance
  start_advance-inspects (err e) m = refl
  start_advance-inspects (ok none) m = refl
  start_advance-inspects (ok (some i)) m = refl

  start_inspect-inspects :
      (o : Option (ℕ × InspectInput)) (m : NonodoModel)
      → (start_inspect o m).1.inspects ≡ m.inspects
  unfolding start_inspect
  start_inspect-inspects (some (at, i)) m = refl
  start_inspect-inspects none m =
      start_advance-inspects (find_by_status status_unprocessed m.db).0
        (on_db (find_by_status status_unprocessed) m).1

  get_next-inspects : (m : NonodoModel) → (get_next m).1.inspects ≡ m.inspects
  unfolding get_next
  get_next-inspects m = start_inspect-inspects (first_unprocessed 0 m.inspects) m

  -- The application takes the inspect that is asked behind the others.
  fetches-inspect :
      (m : NonodoModel) (i : InspectInput)
      → m.state ≡ idle
      → NoneWaiting m.inspects
      → i.status ≡ status_unprocessed
      → let asked = record m { inspects = m.inspects ++ i ∷ [] } in
        (finish_and_get_next true asked).1
        ≡ record asked { state = new_inspect (length m.inspects) i }
  unfolding finish_and_get_next finish finish_state get_next start_inspect
  fetches-inspect m i e h u =
      rw (e, first_unprocessed-append 0 m.inspects i h u)
        (let z : 0 + length m.inspects ≡ length m.inspects = omega arith in rw z refl)

  ends-inspect :
      (m : NonodoModel) (s : Inspect) (accept : Bool) (ps : List InspectInput) (i : InspectInput)
      (n : ℕ) (db : Db)
      → m.state ≡ inspect s
      → m.inspects ≡ ps ++ i ∷ []
      → s.at ≡ length ps
      → get_processed_input_count m.db ≡ (ok n, db)
      → (finish_and_get_next accept m).1.inspects
        ≡ ps
          ++ record i {
            status = status_of accept;
            processed_input_count = pos n;
            reports = s.reports;
          }
            ∷ []
  unfolding finish_and_get_next finish finish_state close_inspect
  ends-inspect m s accept ps i n db e f a c =
      rw (e, c) (get_next-inspects _ ∙ rw (f, a) (modify_at-append _ ps i))

  pub serve-inspects :
      (m : NonodoModel) (i : InspectInput) (ps : List Text) (accept : Bool) (n : ℕ) (db : Db)
      → m.state ≡ idle
      → NoneWaiting m.inspects
      → i.status ≡ status_unprocessed
      → get_processed_input_count m.db ≡ (ok n, db)
      → (rs : List InspectReport) × (payloads rs ≡ ps)
        × ((serve ps accept (record m { inspects = m.inspects ++ i ∷ [] })).inspects
            ≡ m.inspects
              ++ record i { status = status_of accept; processed_input_count = pos n; reports = rs }
                ∷ [])
  unfolding new_inspect payloads
  serve-inspects m i ps accept n db e h u c =
      let asked : NonodoModel = record m { inspects = m.inspects ++ i ∷ [] } in
      let s : Inspect = record { at = length m.inspects; index = i.index; reports = [] } in
      let (v, q, at, d) = post_reports-inspect ps (record asked { state = inspect s }) s refl in
      (
        v.reports,
        d,
        rw (serve, fetches-inspect m i e h u)
            (rw q (
              ends-inspect (record asked { state = inspect v }) v accept m.inspects i n db refl refl
                at c)),
      )
