-- ===== src/Reader/Adapter.antt =====
-- internal/reader/adapter_v1.go: the queries of the GraphQL schema.
use cartesi_rollups_hl_graph.Base.{
  ℕ, Option, none, some, List, [], ◌∷◌, ◌++◌, String, Text, decimal, map, ℤ, pos_part, Result, ok,
  err, not_found, Exec, ◌>>=◌, pure, lift, false,
}
use cartesi_rollups_hl_graph.External.{External}
use cartesi_rollups_hl_graph.Data.{ConvenienceFilter}
use cartesi_rollups_hl_graph.Store.{Db}
use cartesi_rollups_hl_graph.Repository.Query.{Page}
use cartesi_rollups_hl_graph.Repository.Voucher as Vouchers
use cartesi_rollups_hl_graph.Repository.Notice as Notices
use cartesi_rollups_hl_graph.Repository.Report as Reports
use cartesi_rollups_hl_graph.Repository.Input as Inputs
use cartesi_rollups_hl_graph.Reader.Connection.{Connection, new_connection}
use cartesi_rollups_hl_graph.Reader.Conversions.{
  Input, Voucher, Report, Notice, convert_convenient_voucher_v1, convert_convenient_notice_v1,
  convert_input, convert_inputs, convert_to_report,
}

-- The argument `where` of the inputs.
pub record InputFilter : Type 0 where
  pub index_lower_than : Option ℕ
  pub index_greater_than : Option ℕ
  pub msg_sender : Option Text

abbrev pub no_comparison : String → ConvenienceFilter
no_comparison field = record {
  field = some field;
  eq = none;
  ne = none;
  gt = none;
  gte = none;
  lt = none;
  lte = none;
}

-- The filter on the input of an output.
unfoldable pub of_input : Option ℕ → List ConvenienceFilter
of_input none = []
of_input (some i) = record (no_comparison "InputIndex") { eq = some (decimal i) } ∷ []

unfoldable pub greater_than : Option ℕ → List ConvenienceFilter
greater_than none = []
greater_than (some i) = record (no_comparison "Index") { gt = some (decimal i) } ∷ []

unfoldable pub lower_than : Option ℕ → List ConvenienceFilter
lower_than none = []
lower_than (some i) = record (no_comparison "Index") { lt = some (decimal i) } ∷ []

unfoldable pub from_sender : Option Text → List ConvenienceFilter
from_sender none = []
from_sender (some s) = record (no_comparison "MsgSender") { eq = some s } ∷ []

unfoldable pub input_filters : Option InputFilter → List ConvenienceFilter
unfolding greater_than lower_than from_sender
input_filters none = []
input_filters (some w) =
    greater_than w.index_greater_than ++ (lower_than w.index_lower_than ++ from_sender w.msg_sender)

-- A page as a connection of the converted rows.
unfoldable pub connection_of : {A B : Type 0} → (A → B) → Page A → Connection B
connection_of convert page =
    new_connection (pos_part page.offset) page.total (map convert page.rows)

unfoldable pub found {ℓ} : {A : Type ℓ} → Option A → Result A
found none = err not_found
found (some a) = ok a

module _ ⦃x : External⦄ where
  unfoldable pub get_notices :
      Option ℤ → Option ℤ → Option Text → Option Text → Option ℕ → Exec Db (Connection Notice)
  get_notices first last after before input_index = do
    notices ← Notices.find_all_notices first last after before (of_input input_index)
    pure (connection_of convert_convenient_notice_v1 notices)

  unfoldable pub get_vouchers :
      Option ℤ → Option ℤ → Option Text → Option Text → Option ℕ → Exec Db (Connection Voucher)
  get_vouchers first last after before input_index = do
    vouchers ← Vouchers.find_all_vouchers first last after before (of_input input_index)
    pure (connection_of convert_convenient_voucher_v1 vouchers)

  unfoldable pub get_reports :
      Option ℤ → Option ℤ → Option Text → Option Text → Option ℕ → Exec Db (Connection Report)
  get_reports first last after before input_index = do
    reports ← Reports.find_all_by_input_index first last after before input_index
    pure (connection_of convert_to_report reports)

  unfoldable pub get_inputs :
      Option ℤ
      → Option ℤ
      → Option Text
      → Option Text
      → Option InputFilter
      → Exec Db (Connection Input)
  get_inputs first last after before where_ = do
    inputs ← Inputs.find_all first last after before (input_filters where_)
    nodes ← lift (convert_inputs inputs.rows)
    pure (new_connection (pos_part inputs.offset) inputs.total nodes)

  unfoldable pub get_voucher : ℕ → ℕ → Exec Db Voucher
  unfolding found
  get_voucher voucher_index input_index = do
    o ← Vouchers.find_voucher_by_input_and_output_index input_index voucher_index
    v ← lift (found o)
    pure (record {
      index = voucher_index;
      input_index = v.input_index;
      destination = x.address_hex v.destination;
      payload = v.payload;
      executed = false;
    })

  unfoldable pub get_notice : ℕ → ℕ → Exec Db Notice
  unfolding found
  get_notice notice_index input_index = do
    o ← Notices.find_by_input_and_output_index input_index notice_index
    n ← lift (found o)
    pure (record { index = notice_index; input_index = input_index; payload = n.payload })

  unfoldable pub get_report : ℕ → ℕ → Exec Db Report
  unfolding found
  get_report report_index input_index = do
    o ← Reports.find_by_input_and_output_index input_index report_index
    r ← lift (found o)
    pure (convert_to_report r)

  unfoldable pub get_input : ℕ → Exec Db Input
  unfolding found
  get_input index = do o ← Inputs.find_by_index index; i ← lift (found o); lift (convert_input i)
