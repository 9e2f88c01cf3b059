-- ===== src/Tests/Pages.antt =====
-- Runs of the pagination, the queries and the walk.
use cartesi_rollups_hl_graph.Base.{ℕ, ◌≡◌, none, some, List, [], ◌∷◌, ok, arith, pos}
use cartesi_rollups_hl_graph.Pagination.{compute_page, encode_cursor, decode_cursor}
use cartesi_rollups_hl_graph.Pagination.Cursor.{decode_cursor-encode_cursor}
use cartesi_rollups_hl_graph.Pagination.Bounds.{IsWindow, compute_page-IsWindow, compute_page_first}
use cartesi_rollups_hl_graph.Reader.Walk.{walk, walk-rows}
use cartesi_rollups_hl_graph.Tests.World.{world}

abbrev rows : List ℕ
rows = 10 ∷ 20 ∷ 30 ∷ []

walk-rows_example : walk rows 2 3 none ≡ ok rows
walk-rows_example = walk-rows rows 1 2 (omega arith) (omega arith)

compute_page-IsWindow_example : IsWindow 2 (pos 0, pos 2)
unfolding compute_page
compute_page-IsWindow_example =
    compute_page-IsWindow (some (pos 7)) none none none 2
      (compute_page_first 7 0 2 (omega arith) (omega arith)).0

decode_cursor-encode_cursor_example : decode_cursor (encode_cursor 12) 13 ≡ ok 12
decode_cursor-encode_cursor_example = decode_cursor-encode_cursor 12 13 (omega arith)
