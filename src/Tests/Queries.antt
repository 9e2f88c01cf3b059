-- ===== src/Tests/Queries.antt =====
-- Runs of the queries on the inputs: those behind the index 1, of the tables and of a page.
use cartesi_rollups_hl_graph.Base.{
  ℕ, ◌≡◌, refl, none, some, List, [], ◌∷◌, ◌++◌, length, ok, arith, pos, take, drop, map, ◌+◌, scan,
}
use cartesi_rollups_hl_graph.Data.{ConvenienceFilter, AdvanceInput}
use cartesi_rollups_hl_graph.Pagination.{compute_page, encode_cursor}
use cartesi_rollups_hl_graph.Pagination.Bounds.{compute_page_first}
use cartesi_rollups_hl_graph.Store.{InputRow, calm, query}
use cartesi_rollups_hl_graph.Store.Table.{order_by}
use cartesi_rollups_hl_graph.Repository.Query.{
  Arg, Where, Page, transform, all_hold, count, find_all, input_index, Op, text, holds, argument,
  compare_value,
}
use cartesi_rollups_hl_graph.Repository.Query.Meaning.{meets, transform-meets}
use cartesi_rollups_hl_graph.Repository.Query.Paging.{matching, find_all-matching}
use cartesi_rollups_hl_graph.Repository.Input
use cartesi_rollups_hl_graph.Tests.World.{world, tables, input_row}

abbrev behind : List ConvenienceFilter
behind =
    record {
      field = some "Index";
      eq = none;
      ne = none;
      gt = some (49 ∷ []);
      gte = none;
      lt = none;
      lte = none;
    }
    ∷ []

abbrev behind_where : Where
behind_where = record {
  clauses = record { column = input_index; op = Op.gt; placeholder = 1 } ∷ [];
  args = text (49 ∷ []) ∷ [];
  count = 2;
}

transform-meets_example :
    ((more : List Arg) (r : InputRow)
      → all_hold Input.value (behind_where.args ++ more) behind_where.clauses r
        ≡ meets Input.value Input.comparison behind r)
    × (2 ≡ length behind_where.args + 1)
unfolding transform Input.comparison
transform-meets_example = transform-meets Input.value Input.comparison behind behind_where refl

abbrev second_page : Page AdvanceInput
second_page = record { rows = Input.parse_input (input_row 4 0) ∷ []; total = 2; offset = pos 1 }

find_all-matching_example :
    (o : ℕ) × (l : ℕ) × (compute_page (some (pos 1)) none (some (encode_cursor 0)) none 2
      ≡ ok (pos o, pos l))
    × (second_page ≡ record {
      rows = map Input.parse_input (
          take l (
            drop o (
              Input.sorted (matching (λ t. t.inputs) Input.value Input.comparison behind tables))));
      total = 2;
      offset = pos o;
    })
    × ((find_all
          (λ t. t.inputs)
          Input.value
          Input.comparison
          Input.sorted
          Input.parse_input
          (some (pos 1))
          none
          (some (encode_cursor 0))
          none
          behind
          (calm tables none)).1.committed
        ≡ tables)
unfolding meets Input.comparison compare_value world scan
find_all-matching_example =
    find_all-matching (λ t. t.inputs) Input.value Input.comparison Input.sorted Input.parse_input
      (some (pos 1)) none (some (encode_cursor 0)) none behind (calm tables none)
      (unfold find_all count transform query all_hold holds argument order_by in
        rw ((compute_page_first 1 0 2 (omega arith) (omega arith)).1) refl)
