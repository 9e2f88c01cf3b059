-- ===== src/Reader/Executed.antt =====
-- The query for the vouchers that are, or are not, executed.
use cartesi_rollups_hl_graph.Base.{
  ℕ, ◌≡◌, refl, Bool, true, false, not, Option, none, some, List, [], ◌∷◌, Text, map, ℤ, pos, ok,
  err, text_eq, select, take, drop, length, if◌then◌else◌, unexpected_value, arith,
}
use cartesi_rollups_hl_graph.External.{External}
use cartesi_rollups_hl_graph.Store.{Tables, VoucherRow, calm, query}
use cartesi_rollups_hl_graph.Pagination.{compute_page}
use cartesi_rollups_hl_graph.Repository.Query.{
  Where, transform, empty_where, compare_value, find_all, count,
}
use cartesi_rollups_hl_graph.Repository.Query.Meaning.{meets}
use cartesi_rollups_hl_graph.Repository.Voucher as Vouchers
use cartesi_rollups_hl_graph.Reader.Connection.{new_connection}
use cartesi_rollups_hl_graph.Reader.Conversions.{convert_convenient_voucher_v1}
use cartesi_rollups_hl_graph.Reader.Answers.{connection_of-calm}
use cartesi_rollups_hl_graph.Reader.Resolver.{
  ConvenientFilter, convert_to_convenience_filter, vouchers,
}

-- executed: { eq: b }, and executed: { ne: b }
abbrev pub executed_eq : Bool → List ConvenientFilter
executed_eq b =
    record { destination = none; executed = some (record { eq = some b; ne = none }) } ∷ []

abbrev pub executed_ne : Bool → List ConvenientFilter
executed_ne b =
    record { destination = none; executed = some (record { eq = none; ne = some b }) } ∷ []

-- Whether a voucher is executed, as `b` says.
abbrev pub executed_as : Bool → VoucherRow → Bool
executed_as b r = if b then r.executed else not r.executed

module _ ⦃x : External⦄ where
  executed_eq-meets :
      (b : Bool) (r : VoucherRow)
      → meets Vouchers.value Vouchers.comparison (convert_to_convenience_filter (executed_eq b)) r
        ≡ executed_as b r
  unfolding convert_to_convenience_filter meets Vouchers.comparison compare_value text_eq
  executed_eq-meets true r = ground arith
  executed_eq-meets false r = ground arith

  executed_eq-transform :
      (b : Bool)
      → (w : Where) × (transform Vouchers.comparison empty_where
            (convert_to_convenience_filter (executed_eq b))
          ≡ ok w)
  unfolding convert_to_convenience_filter transform Vouchers.comparison text_eq
  executed_eq-transform true = (_, refl)
  executed_eq-transform false = (_, refl)

  module _ (first last : Option ℤ) (after before : Option Text) (b : Bool) (t : Tables)
      (tx : Option Tables) where
    -- The query for the vouchers with `executed: { eq: b }` returns, where the page arguments fit their
    -- number and the engine refuses no statement, the page of exactly the vouchers that are executed as
    -- `b` says.
    pub vouchers-executed_eq :
        (o l : ℕ)
        → let rows = select (executed_as b) t.vouchers in
          compute_page first last after before (length rows) ≡ ok (pos o, pos l)
          → vouchers first last after before (executed_eq b) (calm t tx) ≡ (
            ok (
                new_connection o (length rows) (
                  map
                    (λ r. convert_convenient_voucher_v1 (Vouchers.convert_to_convenience_voucher r))
                    (take l (drop o (Vouchers.sorted rows))))),
            calm t tx,
          )
    unfolding vouchers Vouchers.find_all_vouchers
    vouchers-executed_eq o l h =
        let (w, built) = executed_eq-transform b in
        connection_of-calm (λ t. t.vouchers) Vouchers.value Vouchers.comparison Vouchers.sorted
          Vouchers.convert_to_convenience_voucher convert_convenient_voucher_v1 first last after
          before (convert_to_convenience_filter (executed_eq b)) (executed_as b) t tx w o l built
          (executed_eq-meets b) h

    -- With `executed: { ne: b }` the query is refused as an unexpected value, whatever the page
    -- arguments and the tables: the missing `eq` becomes the empty text.
    pub vouchers-executed_ne :
        vouchers first last after before (executed_ne b) (calm t tx)
        ≡ (err unexpected_value, calm t tx)
    unfolding vouchers Vouchers.find_all_vouchers find_all count query transform
        convert_to_convenience_filter Vouchers.comparison text_eq
    vouchers-executed_ne = refl
