-- ===== src/Reader/Answers.antt =====
-- internal/reader/adapter_v1.go: what the queries return where the engine refuses no statement.
use cartesi_rollups_hl_graph.Base.{
  ℕ, ◌≡◌, refl, Bool, Option, none, some, List, Text, map, ℤ, pos, Result, ok, ◌>>=◌, pure, select,
  take, drop, length,
}
use cartesi_rollups_hl_graph.External.{External}
use cartesi_rollups_hl_graph.Data.{ConvenienceFilter}
use cartesi_rollups_hl_graph.Store.{Tables, calm}
use cartesi_rollups_hl_graph.Pagination.{compute_page}
use cartesi_rollups_hl_graph.Repository.Query.{
  Column, Value, Where, Comparison, find_all, transform, empty_where,
}
use cartesi_rollups_hl_graph.Repository.Query.Meaning.{meets}
use cartesi_rollups_hl_graph.Repository.Query.Paging.{matching, select_cong}
use cartesi_rollups_hl_graph.Repository.Query.Answers.{find_all-calm}
use cartesi_rollups_hl_graph.Repository.Voucher as Vouchers
use cartesi_rollups_hl_graph.Repository.Notice as Notices
use cartesi_rollups_hl_graph.Repository.Report as Reports
use cartesi_rollups_hl_graph.Reader.Connection.{new_connection}
use cartesi_rollups_hl_graph.Reader.Conversions.{
  convert_convenient_voucher_v1, convert_convenient_notice_v1, convert_to_report,
}
use cartesi_rollups_hl_graph.Reader.Adapter.{
  of_input, connection_of, get_vouchers, get_notices, get_reports,
}
use cartesi_rollups_hl_graph.Reader.Pages.{
  map-map, is_of, of_input-meets_voucher, of_input-meets_notice, input_index_filter-meets,
}

module _ ⦃x : External⦄ where
  module _ {R T S : Type 0} (table : Tables → List R) (value : R → Column → Value)
      (comparison : ConvenienceFilter → Result Comparison) (sorted : List R → List R)
      (convert : R → T) (node : T → S) where
    pub connection_of-calm :
        (first last : Option ℤ) (after before : Option Text) (fs : List ConvenienceFilter)
        (p : R → Bool) (t : Tables) (tx : Option Tables) (w : Where) (o l : ℕ)
        → transform comparison empty_where fs ≡ ok w
        → ((r : R) → meets value comparison fs r ≡ p r)
        → compute_page first last after before (length (select p (table t))) ≡ ok (pos o, pos l)
        → (find_all table value comparison sorted convert first last after before fs >>= λ page.
              pure (connection_of node page))
            (calm t tx)
          ≡ (
            ok (
                new_connection o
                  (length (select p (table t)))
                  (map (λ r. node (convert r)) (take l (drop o (sorted (select p (table t))))))),
            calm t tx,
          )
    unfolding connection_of
    connection_of-calm first last after before fs p t tx w o l built e h =
        let s : matching table value comparison fs t ≡ select p (table t) =
          select_cong _ p (table t) e in
        rw
          (find_all-calm table value comparison sorted convert first last after before fs t tx w o l
            built (rw s h))
          (rw (s, map-map convert node) refl)

  of_input_voucher-transform :
      (i : Option ℕ) → (w : Where) × (transform Vouchers.comparison empty_where (of_input i) ≡ ok w)
  unfolding of_input transform Vouchers.comparison
  of_input_voucher-transform none = (_, refl)
  of_input_voucher-transform (some j) = (_, refl)

  of_input_notice-transform :
      (i : Option ℕ) → (w : Where) × (transform Notices.comparison empty_where (of_input i) ≡ ok w)
  unfolding of_input transform Notices.comparison
  of_input_notice-transform none = (_, refl)
  of_input_notice-transform (some j) = (_, refl)

  input_index_filter-transform :
      (i : Option ℕ)
      → (w : Where) × (transform Reports.comparison empty_where (Reports.input_index_filter i)
          ≡ ok w)
  unfolding Reports.input_index_filter transform Reports.comparison
  input_index_filter-transform none = (_, refl)
  input_index_filter-transform (some j) = (_, refl)

  module _ (first last : Option ℤ) (after before : Option Text) (i : Option ℕ) (t : Tables)
      (tx : Option Tables) (o l : ℕ) where
    -- `GetVouchers` answers: where the page arguments fit the number of the vouchers of the input, or of all
    -- if no input is given, and the engine refuses no statement, it returns their page, and changes
    -- nothing.
    pub get_vouchers-calm :
        let rows = select (λ r. is_of i r.input_index) t.vouchers in
        compute_page first last after before (length rows) ≡ ok (pos o, pos l)
        → get_vouchers first last after before i (calm t tx) ≡ (
          ok (
              new_connection o (length rows) (
                map
                  (λ r. convert_convenient_voucher_v1 (Vouchers.convert_to_convenience_voucher r))
                  (take l (drop o (Vouchers.sorted rows))))),
          calm t tx,
        )
    unfolding get_vouchers Vouchers.find_all_vouchers
    get_vouchers-calm h =
        let (w, built) = of_input_voucher-transform i in
        connection_of-calm (λ t. t.vouchers) Vouchers.value Vouchers.comparison Vouchers.sorted
          Vouchers.convert_to_convenience_voucher convert_convenient_voucher_v1 first last after
          before (of_input i) (λ r. is_of i r.input_index) t tx w o l built
          (of_input-meets_voucher i) h

    -- `GetNotices` answers: where the page arguments fit the number of the notices of the input, or of all
    -- if no input is given, and the engine refuses no statement, it returns their page, and changes
    -- nothing.
    pub get_notices-calm :
        let rows = select (λ r. is_of i r.input_index) t.notices in
        compute_page first last after before (length rows) ≡ ok (pos o, pos l)
        → get_notices first last after before i (calm t tx) ≡ (
          ok (
              new_connection o (length rows) (
                map
                  (λ r. convert_convenient_notice_v1 (Notices.parse_notice r))
                  (take l (drop o (Notices.sorted rows))))),
          calm t tx,
        )
    unfolding get_notices Notices.find_all_notices
    get_notices-calm h =
        let (w, built) = of_input_notice-transform i in
        connection_of-calm (λ t. t.notices) Notices.value Notices.comparison Notices.sorted
          Notices.parse_notice convert_convenient_notice_v1 first last after before (of_input i)
          (λ r. is_of i r.input_index) t tx w o l built (of_input-meets_notice i) h

    -- `GetReports` answers: where the page arguments fit the number of the reports of the input, or of all
    -- if no input is given, and the engine refuses no statement, it returns their page, and changes
    -- nothing.
    pub get_reports-calm :
        let rows = select (λ r. is_of i r.input_index) t.reports in
        compute_page first last after before (length rows) ≡ ok (pos o, pos l)
        → get_reports first last after before i (calm t tx) ≡ (
          ok (
              new_connection o (length rows) (
                map
                  (λ r. convert_to_report (Reports.parse_report r))
                  (take l (drop o (Reports.sorted rows))))),
          calm t tx,
        )
    unfolding get_reports Reports.find_all_by_input_index Reports.find_all
    get_reports-calm h =
        let (w, built) = input_index_filter-transform i in
        connection_of-calm (λ t. t.reports) Reports.value Reports.comparison Reports.sorted
          Reports.parse_report convert_to_report first last after before
          (Reports.input_index_filter i) (λ r. is_of i r.input_index) t tx w o l built
          (input_index_filter-meets i) h
