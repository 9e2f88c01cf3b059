-- ===== src/Reader/Schema.antt =====
-- internal/reader/adapter.go and reader.resolvers.go: the interface of the two adapters, and the resolvers
-- of the GraphQL schema on it. The query for vouchers with a filter, which asks the repository itself, is
-- Reader/Resolver. A proof is what the adapter gives.
use cartesi_rollups_hl_graph.Base.{
  if◌then◌else◌, text_eq, codes, ℕ, Option, none, some, List, Text, ℤ, Result, not_implemented,
  Exec, ◌>>=◌, pure, raise, lift,
}
use cartesi_rollups_hl_graph.External.{External}
use cartesi_rollups_hl_graph.Store.{Db}
use cartesi_rollups_hl_graph.Reader.Connection.{Connection}
use cartesi_rollups_hl_graph.Reader.Conversions.{Input, Voucher, Report, Notice}
use cartesi_rollups_hl_graph.Reader.Adapter.{InputFilter}
use cartesi_rollups_hl_graph.Reader.Adapter as V1
use cartesi_rollups_hl_graph.Reader.AdapterV2.{ReportNode}
use cartesi_rollups_hl_graph.Reader.AdapterV2 as V2

-- The arguments of a page and what it is a page of.
abbrev pub Paged : Type 0 → Type 0 → Type 0
Paged F T = Option ℤ → Option ℤ → Option Text → Option Text → F → Exec Db (Connection T)

-- A report may be missing without an error.
pub record Adapter (Proof : Type 0) : Type 0 where
  pub get_report : (report_index input_index : ℕ) → Exec Db (Option Report)
  pub get_reports : Paged (Option ℕ) Report
  pub get_inputs : Paged (Option InputFilter) Input
  pub get_input : ℕ → Exec Db Input
  pub get_notice : (notice_index input_index : ℕ) → Exec Db Notice
  pub get_notices : Paged (Option ℕ) Notice
  pub get_voucher : (voucher_index input_index : ℕ) → Exec Db Voucher
  pub get_vouchers : Paged (Option ℕ) Voucher
  pub get_proof : (input_index output_index : ℕ) → Exec Db Proof

module _ ⦃x : External⦄ {Proof : Type 0} where
  -- `AdapterV1`, which has no proofs
  unfoldable pub adapter_v1 : Adapter Proof
  adapter_v1 = record {
    get_report = λ j i. V1.get_report j i >>= λ r. pure (some r);
    get_reports = V1.get_reports;
    get_inputs = V1.get_inputs;
    get_input = V1.get_input;
    get_notice = V1.get_notice;
    get_notices = V1.get_notices;
    get_voucher = V1.get_voucher;
    get_vouchers = V1.get_vouchers;
    get_proof = λ i j. raise not_implemented;
  }

  -- `AdapterV2`, with what Graphile answers for a report and for a proof
  unfoldable pub adapter_v2 :
      (reports : ℕ → ℕ → Result (List ReportNode)) (proofs : ℕ → ℕ → Result Proof) → Adapter Proof
  adapter_v2 reports proofs = record {
    get_report = λ j i. lift (V2.get_report (reports j i));
    get_reports = V2.get_reports;
    get_inputs = V2.get_inputs;
    get_input = V2.get_input;
    get_notice = V2.get_notice;
    get_notices = V2.get_notices;
    get_voucher = V2.get_voucher;
    get_vouchers = V2.get_vouchers;
    get_proof = λ i j. lift (proofs i j);
  }

  -- The adapter of the node's version, as NewSupervisorHLGraphQL chooses it
  unfoldable pub adapter_of :
      Text → (ℕ → ℕ → Result (List ReportNode)) → (ℕ → ℕ → Result Proof) → Adapter Proof
  unfolding adapter_v1 adapter_v2
  adapter_of node_version reports proofs =
      if text_eq node_version (codes "v1") then adapter_v1 else adapter_v2 reports proofs

module _ {Proof : Type 0} (a : Adapter Proof) where
  -- The fields of an input.
  unfoldable pub voucher_of_input : Input → ℕ → Exec Db Voucher
  voucher_of_input obj index = a.get_voucher index obj.index

  unfoldable pub notice_of_input : Input → ℕ → Exec Db Notice
  notice_of_input obj index = a.get_notice index obj.index

  unfoldable pub report_of_input : Input → ℕ → Exec Db (Option Report)
  report_of_input obj index = a.get_report index obj.index

  unfoldable pub vouchers_of_input : Paged Input Voucher
  vouchers_of_input first last after before obj =
      a.get_vouchers first last after before (some obj.index)

  unfoldable pub notices_of_input : Paged Input Notice
  notices_of_input first last after before obj =
      a.get_notices first last after before (some obj.index)

  unfoldable pub reports_of_input : Paged Input Report
  reports_of_input first last after before obj =
      a.get_reports first last after before (some obj.index)

  -- The fields of the outputs.
  unfoldable pub input_of_notice : Notice → Exec Db Input
  input_of_notice obj = a.get_input obj.input_index

  unfoldable pub proof_of_notice : Notice → Exec Db Proof
  proof_of_notice obj = a.get_proof obj.input_index obj.index

  unfoldable pub input_of_report : Report → Exec Db Input
  input_of_report obj = a.get_input obj.input_index

  unfoldable pub input_of_voucher : Voucher → Exec Db Input
  input_of_voucher obj = a.get_input obj.input_index

  unfoldable pub proof_of_voucher : Voucher → Exec Db Proof
  proof_of_voucher obj = a.get_proof obj.input_index obj.index

  -- The fields of the query.
  unfoldable pub input : ℕ → Exec Db Input
  input index = a.get_input index

  unfoldable pub voucher : (voucher_index input_index : ℕ) → Exec Db Voucher
  voucher voucher_index input_index = a.get_voucher voucher_index input_index

  unfoldable pub notice : (notice_index input_index : ℕ) → Exec Db Notice
  notice notice_index input_index = a.get_notice notice_index input_index

  unfoldable pub report : (report_index input_index : ℕ) → Exec Db (Option Report)
  report report_index input_index = a.get_report report_index input_index

  unfoldable pub inputs : Paged (Option InputFilter) Input
  inputs first last after before filter = a.get_inputs first last after before filter

  unfoldable pub notices : Paged (Unit {0}) Notice
  notices first last after before u = a.get_notices first last after before none

  unfoldable pub reports : Paged (Unit {0}) Report
  reports first last after before u = a.get_reports first last after before none
