-- ===== src/Rollup/Stuck.antt =====
-- An advance whose first report is already stored, as it is when a statement behind the report failed.
use cartesi_rollups_hl_graph.Base.{
  ◌≡◌, refl, Bool, true, false, Option, none, some, List, [], ◌∷◌, Text, err, primary_key, ◌>>◌,
  pure, Exec, ◌==◌,
}
use cartesi_rollups_hl_graph.External.{External}
use cartesi_rollups_hl_graph.Data.{Report, status_rejected}
use cartesi_rollups_hl_graph.Store.{Tables, ReportRow, calm, exec, for_each}
use cartesi_rollups_hl_graph.Store.Table.{lookup, update}
use cartesi_rollups_hl_graph.Store.Table.Laws.{insert_taken}
use cartesi_rollups_hl_graph.Repository.Report
use cartesi_rollups_hl_graph.Repository.Input
use cartesi_rollups_hl_graph.Rollup.State.{
  Advance, advance, NonodoModel, settle, fail, finish, finish_state, except, except_state,
  close_advance, finish_advance, except_advance, save_all_reports, save_report,
}
use cartesi_rollups_hl_graph.Rollup.Operations.{finish_and_get_next, register_exception}

-- The model is in the advance `a`, whose first report is stored under its key, and no statement that
-- follows is refused by the engine.
pub record IsStuck (m : NonodoModel) : Type 0 where
  pub a : Advance
  pub r : Report
  pub rest : List Report
  pub t : Tables
  pub row : ReportRow
  pub advancing : m.state ≡ advance a
  pub first : a.reports ≡ r ∷ rest
  pub saving : m.has_reports ≡ true
  pub tables : m.db ≡ calm t none
  pub stored : lookup Report.row_key (r.input_index, r.index) t.reports ≡ some row

module _ ⦃x : External⦄ where
  save_all_reports-taken :
      (r : Report) (rest : List Report) (t : Tables) (row : ReportRow)
      → lookup Report.row_key (r.input_index, r.index) t.reports ≡ some row
      → save_all_reports true (r ∷ rest) (calm t none) ≡ (err primary_key, calm t none)
  unfolding save_all_reports for_each save_report Report.create Report.to_row exec
  save_all_reports-taken r rest t row h =
      rw (insert_taken Report.row_key (Report.to_row r) row t.reports h) refl

  finish_advance-taken :
      (d : Bool) (a : Advance) (r : Report) (rest : List Report) (t : Tables) (row : ReportRow)
      → a.reports ≡ r ∷ rest
      → lookup Report.row_key (r.input_index, r.index) t.reports ≡ some row
      → finish_advance d true status_rejected a (calm t none) ≡ (err primary_key, calm t none)
  unfolding finish_advance
  finish_advance-taken true a r rest t row e h =
      rw e (rw (save_all_reports-taken r rest t row h) refl)
  finish_advance-taken false a r rest t row e h =
      rw e (rw (save_all_reports-taken r rest t row h) refl)

  -- A rejection of the input is refused for the stored report, and the model stays stuck.
  finish_and_get_next-IsStuck :
      (m : NonodoModel)
      → IsStuck m
      → ((finish_and_get_next false m).0 ≡ err primary_key)
        × IsStuck (finish_and_get_next false m).1
  unfolding finish_and_get_next finish finish_state close_advance
  finish_and_get_next-IsStuck m k =
      rw (k.advancing, k.saving, k.tables)
        (rw (finish_advance-taken m.has_decoder k.a k.r k.rest k.t k.row k.first k.stored) (
          refl,
          record {
            a = record (k.a) { input = record (k.a.input) { status = status_rejected } };
            r = k.r;
            rest = k.rest;
            t = k.t;
            row = k.row;
            advancing = unfold settle in refl;
            first = k.first;
            saving = refl;
            tables = refl;
            stored = k.stored;
          },
        ))

  -- What an exception writes into the table of the inputs.
  excepted : Tables → Text → Advance → Tables
  excepted t payload a = record t {
    inputs =
        update (λ r. r.index == (fail payload a).input.index)
          (Input.conclude ((fail payload a).input)) t.inputs;
  }

  except_advance-taken :
      (payload : Text) (a : Advance) (r : Report) (rest : List Report) (t : Tables)
      (row : ReportRow)
      → a.reports ≡ r ∷ rest
      → lookup Report.row_key (r.input_index, r.index) t.reports ≡ some row
      → except_advance true payload a (calm t none)
        ≡ (err primary_key, calm (excepted t payload a) none)
  unfolding except_advance Input.update_input exec excepted
  except_advance-taken payload a r rest t row e h =
      rw e (save_all_reports-taken r rest (excepted t payload a) row h)

  register_exception-IsStuck :
      (m : NonodoModel) (payload : Text)
      → IsStuck m
      → ((register_exception payload m).0 ≡ err primary_key)
        × IsStuck (register_exception payload m).1
  unfolding register_exception except except_state close_advance
  register_exception-IsStuck m payload k =
      rw (k.advancing, k.saving, k.tables)
        (rw (except_advance-taken payload k.a k.r k.rest k.t k.row k.first k.stored) (
          refl,
          record {
            a = fail payload k.a;
            r = k.r;
            rest = k.rest;
            t = excepted k.t payload k.a;
            row = k.row;
            advancing = refl;
            first = unfold fail in k.first;
            saving = refl;
            tables = refl;
            stored = unfold excepted in k.stored;
          },
        ))

  -- The application rejects the input, or reports an exception with a payload.
  abbrev pub attempt : Option Text → Exec NonodoModel (Unit {0})
  attempt none = finish_and_get_next false >> pure tt
  attempt (some payload) = register_exception payload

  abbrev pub attempts : List (Option Text) → NonodoModel → NonodoModel
  attempts [] m = m
  attempts (p ∷ ps) m = attempts ps (attempt p m).1

  attempt-IsStuck :
      (p : Option Text) (m : NonodoModel)
      → IsStuck m
      → ((attempt p m).0 ≡ err primary_key) × IsStuck (attempt p m).1
  attempt-IsStuck none m k = let (e, later) = finish_and_get_next-IsStuck m k in rw e (refl, later)
  attempt-IsStuck (some payload) m k = register_exception-IsStuck m payload k

  -- Once the first report of the advance is stored while the advance goes on, as after a statement
  -- behind the report that failed, no rejection and no exception ends the advance any more, however
  -- often and in whichever order they are tried, also if the engine refuses no further statement: each
  -- is refused for the key of the report.
  pub attempts-IsStuck :
      (ps : List (Option Text)) (p : Option Text) (m : NonodoModel)
      → IsStuck m
      → (attempt p (attempts ps m)).0 ≡ err primary_key
  attempts-IsStuck [] p m k = (attempt-IsStuck p m k).0
  attempts-IsStuck (q ∷ ps) p m k =
      attempts-IsStuck ps p (attempt q m).1 ((attempt-IsStuck q m k).1)
