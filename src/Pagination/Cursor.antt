-- ===== src/Pagination/Cursor.antt =====
-- What `DecodeCursor` makes of the cursors that `EncodeCursor` prints.
use cartesi_rollups_hl_graph.Base.{
  ℕ, ◌≤◌, ◌≡◌, ltb, if◌then◌else◌, decimal, atoi-decimal, decimal-AllBytes, max_int, ok, err,
  invalid_cursor,
}
use cartesi_rollups_hl_graph.Pagination.{encode_cursor, decode_cursor}
use cartesi_rollups_hl_graph.Pagination.Base64.{decode-encode}

-- A cursor that the server printed, for an offset in the range of `int`, is decoded to that
-- offset if a row with that offset is still there, and is refused as invalid otherwise.
pub decode_cursor-encode_cursor :
    (offset total : ℕ)
    → offset ≤ max_int
    → decode_cursor (encode_cursor offset) total
      ≡ (if ltb offset total then ok offset else err invalid_cursor)
unfolding encode_cursor decode_cursor
decode_cursor-encode_cursor offset total h =
    rw (decode-encode (decimal offset) (decimal-AllBytes offset)) (rw (atoi-decimal offset h))
