-- ===== src/Pagination/Bounds.antt =====
-- The window that `ComputePage` returns.
use cartesi_rollups_hl_graph.Base.{
  ℕ, ◌+◌, ◌-◌, ◌≤◌, ◌<◌, ◌≡◌, true, Option, none, some, ℤ, pos, pos_part, min, Text, Result-cases,
  ok, err, mixed_pagination, arith, inl, inr, ◌&&◌, ◌||◌, max_int,
}
use cartesi_rollups_hl_graph.Pagination.{
  is_set, decode_cursor, encode_cursor, compute_page, compute_forward_page, compute_backward_page,
}
use cartesi_rollups_hl_graph.Pagination.Cursor.{decode_cursor-encode_cursor}

-- A window inside the rows: neither number is negative, and it ends at the last row or before.
pub record IsWindow (total : ℕ) (w : ℤ × ℤ) : Type 0 where
  pub offset_nonneg : w.0 ≡ pos (pos_part w.0)
  pub limit_nonneg : w.1 ≡ pos (pos_part w.1)
  pub inside : pos_part w.0 + pos_part w.1 ≤ total

decode_cursor-lt : (cursor : Text) (total n : ℕ) → decode_cursor cursor total ≡ ok n → n < total
unfolding decode_cursor
decode_cursor-lt cursor total n h = ground arith

compute_forward_page-IsWindow :
    (first : Option ℤ) (after : Option Text) (total : ℕ) (w : ℤ × ℤ)
    → compute_forward_page first after total ≡ ok w
    → IsWindow total w
unfolding compute_forward_page
compute_forward_page-IsWindow first none total w h = ground arith
compute_forward_page-IsWindow first (some cursor) total w h =
    elim (Result-cases (decode_cursor cursor total)) [
      | inl (n, e) ↦ ground (arith, decode_cursor-lt cursor total n)
      | inr (x, e) ↦ ground arith
    ]

compute_backward_page-IsWindow :
    (last : Option ℤ) (before : Option Text) (total : ℕ) (w : ℤ × ℤ)
    → compute_backward_page last before total ≡ ok w
    → IsWindow total w
unfolding compute_backward_page
compute_backward_page-IsWindow last none total w h = ground arith
compute_backward_page-IsWindow last (some cursor) total w h =
    elim (Result-cases (decode_cursor cursor total)) [
      | inl (n, e) ↦ ground (arith, decode_cursor-lt cursor total n)
      | inr (x, e) ↦ ground arith
    ]

-- Whatever the connection arguments, a window that `ComputePage` returns has no negative offset or
-- limit and lies inside the rows.
pub compute_page-IsWindow :
    (first last : Option ℤ) (after before : Option Text) (total : ℕ) {w : ℤ × ℤ}
    → compute_page first last after before total ≡ ok w
    → IsWindow total w
unfolding compute_page
compute_page-IsWindow first last after before total {w} h = ground (
  arith,
  compute_forward_page-IsWindow first after total w,
  compute_backward_page-IsWindow last before total w,
)

-- `ComputePage` refuses arguments of both directions, before it looks at their values.
pub compute_page_mixed :
    (first last : Option ℤ) (after before : Option Text) (total : ℕ)
    → (is_set first || is_set after) && (is_set last || is_set before) ≡ true
    → compute_page first last after before total ≡ err mixed_pagination
unfolding compute_page
compute_page_mixed first last after before total h = ground arith

-- Forward, from the first row or behind the row that the cursor of an offset names, where the offset
-- is one of the rows and their number is in the range of `int`, the window starts there and is as long
-- as `first` and the rows left allow.
pub compute_page_first :
    (n offset total : ℕ)
    → offset < total
    → total ≤ max_int
    → (compute_page (some (pos n)) none none none total ≡ ok (pos 0, pos (min n total)))
      × (compute_page (some (pos n)) none (some (encode_cursor offset)) none total
          ≡ ok (pos (offset + 1), pos (min n (total - (offset + 1)))))
unfolding compute_page compute_forward_page
compute_page_first n offset total h b =
    (ground arith, ground (arith, decode_cursor-encode_cursor offset total))

-- Backward, before the row that the cursor of an offset names, where the offset is one of the rows and
-- their number is in the range of `int`, with at most as many rows as stand before that row, the window
-- has `last` rows and ends just before it.
pub compute_page_before :
    (n offset total : ℕ)
    → offset < total
    → total ≤ max_int
    → n ≤ offset
    → compute_page none (some (pos n)) none (some (encode_cursor offset)) total
      ≡ ok (pos (offset - n), pos n)
unfolding compute_page compute_backward_page
compute_page_before n offset total h b fits =
    ground (arith, decode_cursor-encode_cursor offset total)

-- Backward, before the row that the cursor of an offset names, where the offset is one of the rows and
-- their number is in the range of `int`, with more rows than stand before that row, the window starts at
-- the first row and is cut at the end of all the rows only, so that it takes in the row of the cursor.
pub compute_page_before_overruns :
    (n offset total : ℕ)
    → offset < total
    → total ≤ max_int
    → offset < n
    → (compute_page none (some (pos n)) none (some (encode_cursor offset)) total
        ≡ ok (pos 0, pos (min n total)))
      × (offset < min n total)
unfolding compute_page compute_backward_page
compute_page_before_overruns n offset total h b long =
    (ground (arith, decode_cursor-encode_cursor offset total), omega arith)
