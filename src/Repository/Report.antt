-- ===== src/Repository/Report.antt =====
-- internal/convenience/repository/report_repository.go
use cartesi_rollups_hl_graph.Base.{
  ℕ, Bool, Option, none, some, List, [], ◌∷◌, Text, text_eq, decimal, find, ◌==◌, ◌&&◌, str_eq,
  if◌then◌else◌, ℤ, Result, ok, err, bind, Exec, ◌>>=◌, ◌>>◌, pure, not_implemented,
  unexpected_field,
}
use mathlib.Core.Option
use cartesi_rollups_hl_graph.External.{Address, External}
use cartesi_rollups_hl_graph.Store.{Db, Tables, ReportRow, Context, query, exec}
use cartesi_rollups_hl_graph.Store.Table.{Key, key_lt, lookup, insert, update, order_by}
use cartesi_rollups_hl_graph.Repository.Query.{
  Column, input_index, output_index, status, msg_sender, Value, integer, words, absent, Arg, text,
  Op, Comparison, Page, deref,
}
use cartesi_rollups_hl_graph.Repository.Query
use cartesi_rollups_hl_graph.Data.{Report, ConvenienceFilter}

-- PRIMARY KEY (input_index, output_index), and the order of the pages.
abbrev pub row_key : ReportRow → Key
row_key r = (r.input_index, r.output_index)

abbrev pub sorted : List ReportRow → List ReportRow
sorted = order_by (λ r s. key_lt (row_key r) (row_key s))

abbrev pub value : ReportRow → Column → Value
value r Column.input_index = integer r.input_index
value r Column.output_index = integer r.output_index
value r _ = absent

abbrev pub with_reports : Tables → Result (List ReportRow) → Result Tables
with_reports t (ok rows) = ok (record t { reports = rows })
with_reports t (err e) = err e

abbrev pub is_at : ℕ → ℕ → ReportRow → Bool
is_at i o r = r.input_index == i && r.output_index == o

column_comparison : Column → Option Text → Result Comparison
column_comparison c none = err not_implemented
column_comparison c (some t) = ok (record { column = c; op = Op.eq; arg = text t })

-- The branch of `transformToReportQuery` for one filter.
unfoldable pub comparison : ConvenienceFilter → Result Comparison
unfolding column_comparison
comparison f = bind (deref f.field) λ field.
    if str_eq field "OutputIndex"
    then column_comparison output_index f.eq
    else if str_eq field "InputIndex"
    then column_comparison input_index f.eq
    else err unexpected_field

-- The filter of `FindAllByInputIndex`.
unfoldable pub input_index_filter : Option ℕ → List ConvenienceFilter
input_index_filter none = []
input_index_filter (some i) =
    record {
      field = some "InputIndex";
      eq = some (decimal i);
      ne = none;
      gt = none;
      gte = none;
      lt = none;
      lte = none;
    }
    ∷ []

module _ ⦃x : External⦄ where
  -- The arguments of INSERT.
  unfoldable pub to_row : Report → ReportRow
  to_row r = record {
    output_index = r.index;
    input_index = r.input_index;
    payload = x.bytes_to_hex r.payload;
    app_contract = x.address_hex r.app_contract;
  }

  -- `parseReportRow` and `parseReport` alike.
  unfoldable pub parse_report : ReportRow → Report
  parse_report row = record {
    index = row.output_index;
    input_index = row.input_index;
    payload = x.hex_to_bytes row.payload;
    app_contract = x.hex_to_address row.app_contract;
  }

  unfoldable pub create : Context → Report → Exec Db Report
  create ctx report = do
    exec ctx (λ t. with_reports t (insert row_key (to_row report) t.reports))
    pure report

  unfoldable pub update_report : Context → Report → Exec Db Report
  update_report ctx report = do
    exec ctx λ t. ok (record t {
      reports =
          update (is_at report.input_index report.index)
            (λ r. record r { payload = x.bytes_to_hex report.payload }) t.reports;
    })
    pure report

  -- The query selects the payload alone, so the application of the report is the zero address.
  unfoldable pub find_by_input_and_output_index : ℕ → ℕ → Exec Db (Option Report)
  find_by_input_and_output_index i o = do
    row ← query (λ t. ok (lookup row_key (i, o) t.reports))
    pure (
        Option.map
          (λ r. record {
            index = o;
            input_index = i;
            payload = x.hex_to_bytes r.payload;
            app_contract = 0;
          })
          row)

  -- WHERE input_index = $1 AND app_contract = $2
  abbrev pub is_of_app : ℕ → Address → ReportRow → Bool
  is_of_app index app r = r.input_index == index && text_eq r.app_contract (x.address_hex app)

  unfoldable pub find_report_by_app_contract_and_index : ℕ → Address → Exec Db (Option Report)
  find_report_by_app_contract_and_index index app = do
    row ← query (λ t. ok (find (is_of_app index app) t.reports))
    pure (Option.map parse_report row)

  unfoldable pub count : List ConvenienceFilter → Exec Db ℕ
  count = Query.count (λ t. t.reports) value comparison

  unfoldable pub find_all :
      Option ℤ
      → Option ℤ
      → Option Text
      → Option Text
      → List ConvenienceFilter
      → Exec Db (Page Report)
  find_all = Query.find_all (λ t. t.reports) value comparison sorted parse_report

  unfoldable pub find_all_by_input_index :
      Option ℤ → Option ℤ → Option Text → Option Text → Option ℕ → Exec Db (Page Report)
  find_all_by_input_index first last after before index =
      find_all first last after before (input_index_filter index)
