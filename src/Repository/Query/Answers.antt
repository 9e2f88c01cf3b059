-- ===== src/Repository/Query/Answers.antt =====
-- `FindAll` of the repositories where the engine refuses no statement.
use cartesi_rollups_hl_graph.Base.{
  ℕ, ◌≡◌, refl, ap, Option, List, Text, map, length, take, drop, ℤ, pos, Result, ok,
}
use cartesi_rollups_hl_graph.External.{External}
use cartesi_rollups_hl_graph.Data.{ConvenienceFilter}
use cartesi_rollups_hl_graph.Store.{Tables, calm, query}
use cartesi_rollups_hl_graph.Pagination.{compute_page}
use cartesi_rollups_hl_graph.Repository.Query.{
  Column, Value, Where, Comparison, empty_where, transform, count, find_all,
}
use cartesi_rollups_hl_graph.Repository.Query.Paging.{
  matching, select-matching_all, select_page-matching,
}

module _ ⦃x : External⦄ {R : Type 0} (table : Tables → List R) (value : R → Column → Value)
    (comparison : ConvenienceFilter → Result Comparison) where
  module _ (sorted : List R → List R) {T : Type 0} (convert : R → T) where
    -- Where the filters can be read and the page arguments fit the number of the rows that meet them,
    -- and the engine refuses no statement, `FindAll` returns the page.
    pub find_all-calm :
        (first last : Option ℤ) (after before : Option Text) (fs : List ConvenienceFilter)
        (t : Tables) (tx : Option Tables) (w : Where) (o l : ℕ)
        → transform comparison empty_where fs ≡ ok w
        → compute_page first last after before (length (matching table value comparison fs t))
          ≡ ok (pos o, pos l)
        → find_all table value comparison sorted convert first last after before fs (calm t tx) ≡ (
          ok (record {
            rows = map convert (take l (drop o (sorted (matching table value comparison fs t))));
            total = length (matching table value comparison fs t);
            offset = pos o;
          }),
          calm t tx,
        )
    unfolding find_all count query
    find_all-calm first last after before fs t tx w o l h k =
        let counted =
          ap (λ rows. length rows) (select-matching_all table value comparison fs w t h) in
        rw h (
          rw counted (
            rw k
              (rw (select_page-matching table value comparison sorted convert fs w t o l h) refl)))
