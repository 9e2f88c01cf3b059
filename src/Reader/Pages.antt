-- ===== src/Reader/Pages.antt =====
-- What the queries of the adapter answer, in terms of the tables.
use cartesi_rollups_hl_graph.Base.{
  ℕ, ◌≡◌, refl, sym, ap, ◌∙◌, Bool, true, Option, none, some, List, [], ◌∷◌, ◌==◌, Text, map, ℤ,
  pos, Result, ok, ◌>>=◌, pure, select, take, drop, length, >>=-eq-ok, arith,
}
use cartesi_rollups_hl_graph.External.{External}
use cartesi_rollups_hl_graph.Data.{ConvenienceFilter}
use cartesi_rollups_hl_graph.Store.{Db, Tables, VoucherRow, NoticeRow, ReportRow}
use cartesi_rollups_hl_graph.Pagination.{compute_page}
use cartesi_rollups_hl_graph.Repository.Query.{Column, Value, Comparison, find_all, compare_value}
use cartesi_rollups_hl_graph.Repository.Query.Meaning.{meets}
use cartesi_rollups_hl_graph.Repository.Query.Paging.{find_all-matching, select_cong}
use cartesi_rollups_hl_graph.Repository.Voucher as Vouchers
use cartesi_rollups_hl_graph.Repository.Notice as Notices
use cartesi_rollups_hl_graph.Repository.Report as Reports
use cartesi_rollups_hl_graph.Reader.Connection.{Connection, new_connection}
use cartesi_rollups_hl_graph.Reader.Conversions.{
  Voucher, Report, Notice, convert_convenient_voucher_v1, convert_convenient_notice_v1,
  convert_to_report,
}
use cartesi_rollups_hl_graph.Reader.Adapter.{
  of_input, connection_of, get_vouchers, get_notices, get_reports,
}

-- The connection is the page that the arguments ask for, of the sorted rows.
abbrev pub IsPage :
    {R T : Type 0} (first last : Option ℤ) (after before : Option Text) (rows : List R)
    (sorted : List R → List R) (node : R → T)
    → Connection T
    → Type 0
IsPage first last after before rows sorted node c =
    (o : ℕ) × (l : ℕ) × (compute_page first last after before (length rows) ≡ ok (pos o, pos l))
    × (c ≡ new_connection o (length rows) (map node (take l (drop o (sorted rows)))))

pub map-map :
    {A B C : Type 0} (f : A → B) (g : B → C) (xs : List A)
    → map g (map f xs) ≡ map (λ a. g (f a)) xs
map-map f g [] = refl
map-map f g (a ∷ xs) = ap (λ l. g (f a) ∷ l) (map-map f g xs)

-- Whether the output is one of the input, if one is given.
abbrev pub is_of : Option ℕ → ℕ → Bool
is_of none i = true
is_of (some j) i = i == j

module _ ⦃x : External⦄ where
  module _ {R T S : Type 0} (table : Tables → List R) (value : R → Column → Value)
      (comparison : ConvenienceFilter → Result Comparison) (sorted : List R → List R)
      (convert : R → T) (node : T → S) where
    connection_of-IsPage :
        (first last : Option ℤ) (after before : Option Text) (fs : List ConvenienceFilter)
        (p : R → Bool) (db : Db) {c : Connection S}
        → ((r : R) → meets value comparison fs r ≡ p r)
        → ((find_all table value comparison sorted convert first last after before fs >>= λ page.
              pure (connection_of node page))
            db).0
          ≡ ok c
        → IsPage first last after before
            (select p (table db.committed))
            sorted
            (λ r. node (convert r))
            c
    unfolding connection_of
    connection_of-IsPage first last after before fs p db {c} e h =
        let (page, read, made, _) =
          >>=-eq-ok (find_all table value comparison sorted convert first last after before fs) _ db
            h in
        let (o, l, placed, rows, _) =
          find_all-matching table value comparison sorted convert first last after before fs db
            read in
        let s = select_cong _ p (table db.committed) e in
        let q : connection_of node page ≡ c = unfold connection_of in cc (made) in
        (
          o,
          l,
          ap (λ rs. compute_page first last after before (length rs)) (sym s) ∙ placed,
          sym q
              ∙ ap (connection_of node) rows
              ∙ ap (new_connection o _) (map-map convert node _)
              ∙ ap
                  (λ rs.
                    new_connection o (length rs)
                      (map (λ r. node (convert r)) (take l (drop o (sorted rs)))))
                  s,
        )

  pub of_input-meets_voucher :
      (i : Option ℕ) (r : VoucherRow)
      → meets Vouchers.value Vouchers.comparison (of_input i) r ≡ is_of i r.input_index
  unfolding of_input meets Vouchers.comparison compare_value
  of_input-meets_voucher none r = refl
  of_input-meets_voucher (some j) r = rw (x.integer_eq_decimal r.input_index j) (ground arith)

  pub of_input-meets_notice :
      (i : Option ℕ) (r : NoticeRow)
      → meets Notices.value Notices.comparison (of_input i) r ≡ is_of i r.input_index
  unfolding of_input meets Notices.comparison compare_value
  of_input-meets_notice none r = refl
  of_input-meets_notice (some j) r = rw (x.integer_eq_decimal r.input_index j) (ground arith)

  pub input_index_filter-meets :
      (i : Option ℕ) (r : ReportRow)
      → meets Reports.value Reports.comparison (Reports.input_index_filter i) r
        ≡ is_of i r.input_index
  unfolding Reports.input_index_filter meets Reports.comparison compare_value
  input_index_filter-meets none r = refl
  input_index_filter-meets (some j) r = rw (x.integer_eq_decimal r.input_index j) (ground arith)

  module _ (first last : Option ℤ) (after before : Option Text) (i : Option ℕ) (db : Db) where
    -- The vouchers that `GetVouchers` returns are the page that the arguments ask for, of the vouchers
    -- of the input, or of all if no input is given, in the order of their indices; the total counts
    -- them.
    pub get_vouchers-IsPage :
        {c : Connection Voucher}
        → (get_vouchers first last after before i db).0 ≡ ok c
        → IsPage first last after before
            (select (λ r. is_of i r.input_index) db.committed.vouchers)
            Vouchers.sorted
            (λ r. convert_convenient_voucher_v1 (Vouchers.convert_to_convenience_voucher r))
            c
    unfolding get_vouchers Vouchers.find_all_vouchers
    get_vouchers-IsPage h =
        connection_of-IsPage _ _ _ _ _ _ first last after before (of_input i) _ db
          (of_input-meets_voucher i) h

    -- The notices that `GetNotices` returns are the page that the arguments ask for, of the notices of
    -- the input, or of all if no input is given, in the order of their indices; the total counts them.
    pub get_notices-IsPage :
        {c : Connection Notice}
        → (get_notices first last after before i db).0 ≡ ok c
        → IsPage first last after before
            (select (λ r. is_of i r.input_index) db.committed.notices)
            Notices.sorted
            (λ r. convert_convenient_notice_v1 (Notices.parse_notice r))
            c
    unfolding get_notices Notices.find_all_notices
    get_notices-IsPage h =
        connection_of-IsPage _ _ _ _ _ _ first last after before (of_input i) _ db
          (of_input-meets_notice i) h

    -- The reports that `GetReports` returns are the page that the arguments ask for, of the reports of
    -- the input, or of all if no input is given, in the order of their indices; the total counts them.
    pub get_reports-IsPage :
        {c : Connection Report}
        → (get_reports first last after before i db).0 ≡ ok c
        → IsPage first last after before
            (select (λ r. is_of i r.input_index) db.committed.reports)
            Reports.sorted
            (λ r. convert_to_report (Reports.parse_report r))
            c
    unfolding get_reports Reports.find_all_by_input_index Reports.find_all
    get_reports-IsPage h =
        connection_of-IsPage _ _ _ _ _ _ first last after before (Reports.input_index_filter i) _ db
          (input_index_filter-meets i) h
