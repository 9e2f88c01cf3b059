-- ===== src/Reader/AdapterV2.antt =====
-- internal/reader/adapter_v2.go and input_blob_adapter.go: the queries of the GraphQL schema for a node of
-- the second version. What Graphile answers is a parameter.
use cartesi_rollups_hl_graph.Base.{
  ℕ, Option, none, some, List, [], ◌∷◌, Text, text_eq, codes, decimal, ℤ, pos_part, ◌==◌,
  if◌then◌else◌, Result, ok, err, bind, invalid_status, not_found, Exec, ◌>>=◌, pure, lift, false,
}
use cartesi_rollups_hl_graph.External.{External}
use cartesi_rollups_hl_graph.Data.{
  CompletionStatus, status_accepted, status_rejected, status_exception, AdvanceInput, unix,
}
use cartesi_rollups_hl_graph.Store.{Db}
use cartesi_rollups_hl_graph.Decoder.{get_converted_input}
use cartesi_rollups_hl_graph.Repository.Voucher as Vouchers
use cartesi_rollups_hl_graph.Repository.Notice as Notices
use cartesi_rollups_hl_graph.Repository.Report as Reports
use cartesi_rollups_hl_graph.Repository.Input as Inputs
use cartesi_rollups_hl_graph.Reader.Connection.{Connection, new_connection}
use cartesi_rollups_hl_graph.Reader.Conversions.{
  Input, Report, Status, unprocessed, accepted, rejected, exception, convert_inputs, Notice,
  Voucher, convert_to_report, convert_convenient_notice_v1, convert_convenient_voucher_v1,
}
use cartesi_rollups_hl_graph.Reader.Adapter.{InputFilter, of_input, connection_of}

-- The node of an input, and of a report, in an answer of Graphile.
pub record InputNode : Type 0 where
  pub index : ℕ
  pub blob : Text
  pub status : Text

pub record ReportNode : Type 0 where
  pub index : ℕ
  pub blob : Text
  pub input_index : ℕ

-- `convertReport`
unfoldable pub convert_report : ReportNode → Report
convert_report n = record { index = n.index; input_index = n.input_index; payload = n.blob }

first_report : List ReportNode → Option Report
first_report [] = none
first_report (n ∷ ns) = some (convert_report n)

-- GetReport, whose answer without an edge is no report and no error.
unfoldable pub get_report : Result (List ReportNode) → Result (Option Report)
unfolding first_report convert_report
get_report answer = bind answer (λ edges. ok (first_report edges))

-- `AdapterV2.convertCompletionStatus`
unfoldable pub convert_completion_status_v2 : CompletionStatus → Status
convert_completion_status_v2 s =
    if s == status_accepted
    then accepted
    else if s == status_rejected
    then rejected
    else if s == status_exception
    then rejected
    else unprocessed

-- `convertCompletionStatus` of input_blob_adapter.go
unfoldable pub status_of_text : Text → Result Status
status_of_text s =
    if text_eq s (codes "UNPROCESSED")
    then ok unprocessed
    else if text_eq s (codes "ACCEPTED")
    then ok accepted
    else if text_eq s (codes "REJECTED")
    then ok rejected
    else if text_eq s (codes "EXCEPTION")
    then ok exception
    else err invalid_status

unfoldable pub found {ℓ} : {A : Type ℓ} → Option A → Result A
found none = err not_found
found (some a) = ok a

module _ ⦃x : External⦄ where
  unfoldable pub get_reports :
      Option ℤ → Option ℤ → Option Text → Option Text → Option ℕ → Exec Db (Connection Report)
  unfolding connection_of
  get_reports first last after before input_index = do
    reports ← Reports.find_all_by_input_index first last after before input_index
    pure (connection_of convert_to_report reports)

  unfoldable pub get_notices :
      Option ℤ → Option ℤ → Option Text → Option Text → Option ℕ → Exec Db (Connection Notice)
  unfolding connection_of of_input
  get_notices first last after before input_index = do
    notices ← Notices.find_all_notices first last after before (of_input input_index)
    pure (connection_of convert_convenient_notice_v1 notices)

  unfoldable pub get_vouchers :
      Option ℤ → Option ℤ → Option Text → Option Text → Option ℕ → Exec Db (Connection Voucher)
  unfolding connection_of of_input
  get_vouchers first last after before input_index = do
    vouchers ← Vouchers.find_all_vouchers first last after before (of_input input_index)
    pure (connection_of convert_convenient_voucher_v1 vouchers)

  unfoldable pub get_notice : ℕ → ℕ → Exec Db Notice
  unfolding found
  get_notice notice_index input_index = do
    o ← Notices.find_by_input_and_output_index input_index notice_index
    n ← lift (found o)
    pure (record { index = notice_index; input_index = input_index; payload = n.payload })

  unfoldable pub get_voucher : ℕ → ℕ → Exec Db Voucher
  unfolding found
  get_voucher voucher_index input_index = do
    o ← Vouchers.find_voucher_by_input_and_output_index input_index voucher_index
    v ← lift (found o)
    pure (record {
      index = voucher_index;
      input_index = v.input_index;
      destination = x.address_hex v.destination;
      payload = v.payload;
      executed = false;
    })

  -- The argument `where` is not read.
  unfoldable pub get_inputs :
      Option ℤ
      → Option ℤ
      → Option Text
      → Option Text
      → Option InputFilter
      → Exec Db (Connection Input)
  get_inputs first last after before where_ = do
    inputs ← Inputs.find_all first last after before []
    nodes ← lift (convert_inputs inputs.rows)
    pure (new_connection (pos_part inputs.offset) inputs.total nodes)

  -- The fields of the answer of GetInput.
  unfoldable pub input_of : AdvanceInput → Input
  input_of i = record {
    index = i.index;
    status = convert_completion_status_v2 i.status;
    msg_sender = x.address_hex i.msg_sender;
    timestamp = decimal (unix i.block_timestamp);
    block_number = decimal i.block_number;
    payload = i.payload;
  }

  unfoldable pub get_input : ℕ → Exec Db Input
  unfolding found input_of convert_completion_status_v2
  get_input index = do o ← Inputs.find_by_index index; i ← lift (found o); pure (input_of i)

  -- `InputBlobAdapter.Adapt`
  unfoldable pub adapt : InputNode → Result Input
  unfolding status_of_text
  adapt n = bind (get_converted_input n.blob) λ v. bind (status_of_text n.status) λ s. ok (record {
    index = n.index;
    status = s;
    msg_sender = x.address_hex v.msg_sender;
    timestamp = decimal v.block_timestamp;
    block_number = decimal v.block_number;
    payload = v.payload;
  })
