-- ===== src/Service/Outputs.antt =====
-- `CreateNotice` and `CreateReport` look for a row of the input and the application, and not for the
-- row under the indices of the output.
use cartesi_rollups_hl_graph.Base.{◌≡◌, refl, Option, none, some, find, length, ok, ◌++◌, [], ◌∷◌}
use cartesi_rollups_hl_graph.External.{External}
use cartesi_rollups_hl_graph.Data.{ConvenienceNotice, Report}
use cartesi_rollups_hl_graph.Store.{Tables, calm, NoticeRow, ReportRow, query, exec, background}
use cartesi_rollups_hl_graph.Store.Table.{lookup, update}
use cartesi_rollups_hl_graph.Store.Table.Laws.{lookup-update, length-update, insert_free}
use cartesi_rollups_hl_graph.Repository.Notice
use cartesi_rollups_hl_graph.Repository.Report
use cartesi_rollups_hl_graph.Service.{create_notice, create_report}

module _ ⦃x : External⦄ (y : ConvenienceNotice) (t : Tables) (tx : Option Tables) where
  -- `CreateNotice` where no notice of the application is stored for the input.
  pub create_notice_first :
      find (Notice.is_of_app y.input_index y.app_contract) t.notices ≡ none
      → lookup Notice.row_key (y.input_index, y.output_index) t.notices ≡ none
      → create_notice background y (calm t tx)
        ≡ (ok y, calm (record t { notices = t.notices ++ Notice.to_row y ∷ [] }) tx)
  unfolding create_notice Notice.find_notice_by_app_contract_and_index Notice.create Notice.to_row
      query exec
  create_notice_first first free =
      rw (first, insert_free Notice.row_key (Notice.to_row y) t.notices free)

  create_notice_again :
      (r : NoticeRow)
      → find (Notice.is_of_app y.input_index y.app_contract) t.notices ≡ some r
      → create_notice background y (calm t tx) ≡ (
        ok y,
        calm
            (record t {
              notices =
                  update
                    (Notice.is_at y.input_index y.output_index)
                    (λ s. record s { payload = y.payload })
                    t.notices;
            })
            tx,
      )
  unfolding create_notice Notice.find_notice_by_app_contract_and_index Notice.update_notice query
      exec
  create_notice_again r again = rw again

  lookup_notice :
      lookup Notice.row_key (y.input_index, y.output_index) t.notices ≡ none
      → lookup Notice.row_key
          (y.input_index, y.output_index)
          (update
            (Notice.is_at y.input_index y.output_index)
            (λ s. record s { payload = y.payload })
            t.notices)
        ≡ none
  lookup_notice free = rw (
    lookup-update Notice.row_key (Notice.is_at y.input_index y.output_index)
        (λ s. record s { payload = y.payload }) (y.input_index, y.output_index) t.notices
        (λ r. refl),
    free,
  )

  -- Where the engine refuses no statement, and outside a transaction: a second notice of an application
  -- for one input, under indices of its own that are free, is lost. The call returns it as if it was
  -- stored, the table has as many rows as before, and nothing is found under its indices.
  pub create_notice_lost :
      (r : NoticeRow)
      → find (Notice.is_of_app y.input_index y.app_contract) t.notices ≡ some r
      → lookup Notice.row_key (y.input_index, y.output_index) t.notices ≡ none
      → let c = create_notice background y (calm t tx) in
        (c.0 ≡ ok y)
        × (length c.1.committed.notices ≡ length t.notices)
        × ((Notice.find_by_input_and_output_index y.input_index y.output_index c.1).0 ≡ ok none)
  create_notice_lost r again free = rw (create_notice_again r again) (
    refl,
    length-update _ _ t.notices,
    unfold Notice.find_by_input_and_output_index query in rw (lookup_notice free),
  )

module _ ⦃x : External⦄ (y : Report) (t : Tables) (tx : Option Tables) where
  create_report_again :
      (r : ReportRow)
      → find (Report.is_of_app y.input_index y.app_contract) t.reports ≡ some r
      → create_report background y (calm t tx) ≡ (
        ok y,
        calm
            (record t {
              reports =
                  update
                    (Report.is_at y.input_index y.index)
                    (λ s. record s { payload = x.bytes_to_hex y.payload })
                    t.reports;
            })
            tx,
      )
  unfolding create_report Report.find_report_by_app_contract_and_index Report.update_report query
      exec
  create_report_again r again = rw again

  lookup_report :
      lookup Report.row_key (y.input_index, y.index) t.reports ≡ none
      → lookup Report.row_key
          (y.input_index, y.index)
          (update
            (Report.is_at y.input_index y.index)
            (λ s. record s { payload = x.bytes_to_hex y.payload })
            t.reports)
        ≡ none
  lookup_report free = rw (
    lookup-update Report.row_key (Report.is_at y.input_index y.index)
        (λ s. record s { payload = x.bytes_to_hex y.payload }) (y.input_index, y.index) t.reports
        (λ r. refl),
    free,
  )

  -- Where the engine refuses no statement, and outside a transaction: a second report of an application
  -- for one input, under indices of its own that are free, is lost. The call returns it as if it was
  -- stored, the table has as many rows as before, and nothing is found under its indices.
  pub create_report_lost :
      (r : ReportRow)
      → find (Report.is_of_app y.input_index y.app_contract) t.reports ≡ some r
      → lookup Report.row_key (y.input_index, y.index) t.reports ≡ none
      → let c = create_report background y (calm t tx) in
        (c.0 ≡ ok y)
        × (length c.1.committed.reports ≡ length t.reports)
        × ((Report.find_by_input_and_output_index y.input_index y.index c.1).0 ≡ ok none)
  create_report_lost r again free = rw (create_report_again r again) (
    refl,
    length-update _ _ t.reports,
    unfold Report.find_by_input_and_output_index query in rw (lookup_report free),
  )
