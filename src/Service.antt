-- ===== src/Service.antt =====
-- internal/convenience/services/service.go: the writes that the synchronizer and the rollup make,
-- each an insert or an update, whichever the lookup by input and application calls for.
pub mod Upsert
pub mod Outputs
use cartesi_rollups_hl_graph.Base.{
  ℕ, Bool, Option, none, some, Exec, ◌>>=◌, ◌>>◌, pure, Text, List, ℤ,
}
use cartesi_rollups_hl_graph.External.{External}
use cartesi_rollups_hl_graph.Data.{
  ConvenienceVoucher, ConvenienceNotice, Report, AdvanceInput, ConvenienceFilter,
}
use cartesi_rollups_hl_graph.Store.{Db, Context}
use cartesi_rollups_hl_graph.Repository.Voucher
use cartesi_rollups_hl_graph.Repository.Notice
use cartesi_rollups_hl_graph.Repository.Report
use cartesi_rollups_hl_graph.Repository.Input
use cartesi_rollups_hl_graph.Repository.Query.{Page}

module _ ⦃x : External⦄ (ctx : Context) where
  unfoldable pub put_voucher :
      ConvenienceVoucher → Option ConvenienceVoucher → Exec Db ConvenienceVoucher
  put_voucher v (some in_db) = Voucher.update_voucher ctx v
  put_voucher v none = Voucher.create_voucher ctx v

  unfoldable pub create_voucher : ConvenienceVoucher → Exec Db ConvenienceVoucher
  unfolding put_voucher
  create_voucher v = do
    in_db ← Voucher.find_voucher_by_app_contract_and_index v.input_index v.app_contract
    put_voucher v in_db

  unfoldable pub put_notice :
      ConvenienceNotice → Option ConvenienceNotice → Exec Db ConvenienceNotice
  put_notice n (some in_db) = Notice.update_notice ctx n
  put_notice n none = Notice.create ctx n

  unfoldable pub create_notice : ConvenienceNotice → Exec Db ConvenienceNotice
  unfolding put_notice
  create_notice n = do
    in_db ← Notice.find_notice_by_app_contract_and_index n.input_index n.app_contract
    put_notice n in_db

  unfoldable pub put_input : AdvanceInput → Option AdvanceInput → Exec Db AdvanceInput
  put_input i (some in_db) = Input.update_input ctx i
  put_input i none = Input.raw_create ctx i

  unfoldable pub create_input : AdvanceInput → Exec Db AdvanceInput
  unfolding put_input
  create_input i = do
    in_db ← Input.find_input_by_app_contract_and_index i.index i.app_contract
    put_input i in_db

  unfoldable pub put_report : Report → Option Report → Exec Db Report
  put_report r (some in_db) = Report.update_report ctx r
  put_report r none = Report.create ctx r

  unfoldable pub create_report : Report → Exec Db Report
  unfolding put_report
  create_report r = do
    in_db ← Report.find_report_by_app_contract_and_index r.input_index r.app_contract
    put_report r in_db
