-- ===== src/Synchronizer/Writes.antt =====
-- graphile_synchornizer.go, decoder.go, service.go: where the statements for a batch write, inside a transaction
-- and outside.
use cartesi_rollups_hl_graph.Base.{
  slice, slice_from, refl, Option, none, some, List, Result, ok, err, Exec, ◌>>=◌, pure, lift, ℕ,
  Text, text_eq,
}
use cartesi_rollups_hl_graph.External.{External, Address}
use cartesi_rollups_hl_graph.Data.{
  ConvenienceVoucher, ConvenienceNotice, Report, AdvanceInput, ProcessOutputData, CompletionStatus,
}
use cartesi_rollups_hl_graph.Store.{
  Db, Tables, Context, VoucherRow, NoticeRow, ReportRow, with_transaction, query, exec, for_each,
}
use cartesi_rollups_hl_graph.Store.Keeps.{
  Keeps, Spares, pure-Keeps, lift-Keeps, query-Keeps, pending-Keeps, exec-Keeps, >>=-Keeps,
  if-Keeps, for_each-Keeps,
}
use cartesi_rollups_hl_graph.Repository.Voucher
use cartesi_rollups_hl_graph.Repository.Notice
use cartesi_rollups_hl_graph.Repository.Report
use cartesi_rollups_hl_graph.Repository.Input
use cartesi_rollups_hl_graph.Repository.Synchronizer as Fetches
use cartesi_rollups_hl_graph.Service
use cartesi_rollups_hl_graph.Decoder.{
  handle_output_v2, handle_input, handle_report, store_voucher, store_notice, store_voucher_v2,
  remove_selector, voucher_selector, get_converted_input, retrieve_destination,
}
use cartesi_rollups_hl_graph.Synchronizer.{
  Cursors, OutputResponse, store_output, store_input, store_report, store_nodes, store_response,
  record_fetch, has_more,
}

-- One statement, or one query, and then a result.
then_pure-Keeps :
    (ctx : Context) {A B : Type 0} (m : Exec Db A) (f : A → B)
    → Keeps ctx m
    → Keeps ctx (m >>= λ a. pure (f a))
then_pure-Keeps ctx m f k = >>=-Keeps ctx m (λ a. pure (f a)) k (λ a. pure-Keeps ctx (f a))

vouchers-Spares : (t : Tables) (r : Result (List VoucherRow)) → Spares t (Voucher.with_vouchers t r)
vouchers-Spares t (ok rows) = refl
vouchers-Spares t (err e) = tt

notices-Spares : (t : Tables) (r : Result (List NoticeRow)) → Spares t (Notice.with_notices t r)
notices-Spares t (ok rows) = refl
notices-Spares t (err e) = tt

reports-Spares : (t : Tables) (r : Result (List ReportRow)) → Spares t (Report.with_reports t r)
reports-Spares t (ok rows) = refl
reports-Spares t (err e) = tt

module _ ⦃x : External⦄ where
  put_voucher-Keeps :
      (ctx : Context) (y : ConvenienceVoucher) (o : Option ConvenienceVoucher)
      → Keeps ctx (Service.put_voucher ctx y o)
  unfolding Service.put_voucher Voucher.create_voucher Voucher.update_voucher
  put_voucher-Keeps ctx y none =
      then_pure-Keeps ctx (exec ctx _) (λ _. y) (exec-Keeps ctx _ (λ t. vouchers-Spares t _))
  put_voucher-Keeps ctx y (some _) =
      then_pure-Keeps ctx (exec ctx _) (λ _. y) (exec-Keeps ctx _ (λ t. refl))

  create_voucher-Keeps :
      (ctx : Context) (y : ConvenienceVoucher) → Keeps ctx (Service.create_voucher ctx y)
  unfolding Service.create_voucher Voucher.find_voucher_by_app_contract_and_index
  create_voucher-Keeps ctx y =
      >>=-Keeps ctx (Voucher.find_voucher_by_app_contract_and_index y.input_index y.app_contract)
        (Service.put_voucher ctx y) (then_pure-Keeps ctx (query _) _ (query-Keeps ctx _))
        (put_voucher-Keeps ctx y)

  put_notice-Keeps :
      (ctx : Context) (y : ConvenienceNotice) (o : Option ConvenienceNotice)
      → Keeps ctx (Service.put_notice ctx y o)
  unfolding Service.put_notice Notice.create Notice.update_notice
  put_notice-Keeps ctx y none =
      then_pure-Keeps ctx (exec ctx _) (λ _. y) (exec-Keeps ctx _ (λ t. notices-Spares t _))
  put_notice-Keeps ctx y (some _) =
      then_pure-Keeps ctx (exec ctx _) (λ _. y) (exec-Keeps ctx _ (λ t. refl))

  create_notice-Keeps :
      (ctx : Context) (y : ConvenienceNotice) → Keeps ctx (Service.create_notice ctx y)
  unfolding Service.create_notice Notice.find_notice_by_app_contract_and_index
  create_notice-Keeps ctx y =
      >>=-Keeps ctx (Notice.find_notice_by_app_contract_and_index y.input_index y.app_contract)
        (Service.put_notice ctx y) (then_pure-Keeps ctx (query _) _ (query-Keeps ctx _))
        (put_notice-Keeps ctx y)

  put_input-Keeps :
      (ctx : Context) (y : AdvanceInput) (o : Option AdvanceInput)
      → Keeps ctx (Service.put_input ctx y o)
  unfolding Service.put_input Input.raw_create Input.update_input
  put_input-Keeps ctx y none =
      then_pure-Keeps ctx (exec ctx _) (λ _. y) (exec-Keeps ctx _ (λ t. refl))
  put_input-Keeps ctx y (some _) =
      then_pure-Keeps ctx (exec ctx _) (λ _. y) (exec-Keeps ctx _ (λ t. refl))

  create_input-Keeps : (ctx : Context) (y : AdvanceInput) → Keeps ctx (Service.create_input ctx y)
  unfolding Service.create_input Input.find_input_by_app_contract_and_index
  create_input-Keeps ctx y =
      >>=-Keeps ctx (Input.find_input_by_app_contract_and_index y.index y.app_contract)
        (Service.put_input ctx y) (then_pure-Keeps ctx (query _) _ (query-Keeps ctx _))
        (put_input-Keeps ctx y)

  put_report-Keeps :
      (ctx : Context) (y : Report) (o : Option Report) → Keeps ctx (Service.put_report ctx y o)
  unfolding Service.put_report Report.create Report.update_report
  put_report-Keeps ctx y none =
      then_pure-Keeps ctx (exec ctx _) (λ _. y) (exec-Keeps ctx _ (λ t. reports-Spares t _))
  put_report-Keeps ctx y (some _) =
      then_pure-Keeps ctx (exec ctx _) (λ _. y) (exec-Keeps ctx _ (λ t. refl))

  create_report-Keeps : (ctx : Context) (y : Report) → Keeps ctx (Service.create_report ctx y)
  unfolding Service.create_report Report.find_report_by_app_contract_and_index
  create_report-Keeps ctx y =
      >>=-Keeps ctx (Report.find_report_by_app_contract_and_index y.input_index y.app_contract)
        (Service.put_report ctx y) (then_pure-Keeps ctx (query _) _ (query-Keeps ctx _))
        (put_report-Keeps ctx y)

  store_voucher-Keeps :
      (ctx : Context) (destination : Address) (payload : Text) (i o : ℕ) (app : Address)
      → Keeps ctx (store_voucher ctx destination payload i o app)
  unfolding store_voucher
  store_voucher-Keeps ctx destination payload i o app =
      >>=-Keeps ctx (lift (remove_selector payload)) _ (lift-Keeps ctx (remove_selector payload))
        (λ s.
          then_pure-Keeps ctx (Service.create_voucher ctx _) (λ _. tt) (create_voucher-Keeps ctx _))

  store_notice-Keeps :
      (ctx : Context) (payload : Text) (i o : ℕ) (app : Address)
      → Keeps ctx (store_notice ctx payload i o app)
  unfolding store_notice
  store_notice-Keeps ctx payload i o app =
      >>=-Keeps ctx (lift (remove_selector payload)) _ (lift-Keeps ctx (remove_selector payload))
        (λ s.
          then_pure-Keeps ctx (Service.create_notice ctx _) (λ _. tt) (create_notice-Keeps ctx _))

  store_voucher_v2-Keeps :
      (ctx : Context) (d : ProcessOutputData) (app : Address)
      → Keeps ctx (store_voucher_v2 ctx d app)
  unfolding store_voucher_v2
  store_voucher_v2-Keeps ctx d app =
      >>=-Keeps ctx (lift (retrieve_destination d.payload)) _
        (lift-Keeps ctx (retrieve_destination d.payload))
        (λ t. store_voucher-Keeps ctx t d.payload d.input_index d.output_index app)

  pub handle_output_v2-Keeps :
      (ctx : Context) (d : ProcessOutputData) → Keeps ctx (handle_output_v2 ctx d)
  unfolding handle_output_v2
  handle_output_v2-Keeps ctx d =
      >>=-Keeps ctx (lift (get_converted_input d.payload)) _
        (lift-Keeps ctx (get_converted_input d.payload))
        λ c.
          >>=-Keeps ctx (lift (slice_from 2 d.payload)) _ (lift-Keeps ctx (slice_from 2 d.payload))
            λ p. >>=-Keeps ctx (lift (slice 2 10 p)) _ (lift-Keeps ctx (slice 2 10 p)) λ s.
              if-Keeps ctx (text_eq s voucher_selector) _ _
                (store_voucher_v2-Keeps ctx d c.app_contract)
                (store_notice-Keeps ctx d.payload d.input_index d.output_index c.app_contract)

  handle_input-Keeps :
      (ctx : Context) (index : ℕ) (blob : Text) (status : CompletionStatus)
      → Keeps ctx (handle_input ctx index blob status)
  unfolding handle_input
  handle_input-Keeps ctx index blob status =
      >>=-Keeps ctx (lift (get_converted_input blob)) _ (lift-Keeps ctx (get_converted_input blob))
        (λ c. then_pure-Keeps ctx (Service.create_input ctx _) (λ _. tt) (create_input-Keeps ctx _))

  handle_report-Keeps :
      (ctx : Context) (index output_index : ℕ) (payload : Text)
      → Keeps ctx (handle_report ctx index output_index payload)
  unfolding handle_report
  handle_report-Keeps ctx index output_index payload =
      then_pure-Keeps ctx (Service.create_report ctx _) (λ _. tt) (create_report-Keeps ctx _)

  store_nodes-Keeps : (ctx : Context) (r : OutputResponse) → Keeps ctx (store_nodes ctx r)
  unfolding store_nodes store_output store_input store_report
  store_nodes-Keeps ctx r =
      >>=-Keeps ctx (for_each (store_output ctx) r.outputs) _
        (for_each-Keeps ctx _ r.outputs (λ n. handle_output_v2-Keeps ctx _))
        λ _.
          >>=-Keeps ctx (for_each (store_input ctx) r.inputs) _
            (for_each-Keeps ctx _ r.inputs (λ n. handle_input-Keeps ctx _ _ _))
            λ _.
              for_each-Keeps ctx (store_report ctx) r.reports (λ n. handle_report-Keeps ctx _ _ _)

  -- The statements for a batch leave what is committed as it is.
  pub store_response-Keeps :
      (c : Cursors) (now : ℕ) (r : OutputResponse)
      → Keeps with_transaction (store_response with_transaction c now r)
  unfolding store_response record_fetch Fetches.create
  store_response-Keeps c now r =
      >>=-Keeps with_transaction (store_nodes with_transaction r) _
        (store_nodes-Keeps with_transaction r)
        λ _.
          if-Keeps with_transaction (has_more r) _ _
            (then_pure-Keeps with_transaction (Fetches.create with_transaction _) (λ _. tt)
              (then_pure-Keeps with_transaction (exec with_transaction _) (λ _. _)
                (pending-Keeps _)))
            (pure-Keeps with_transaction tt)
