-- ===== src/Pagination.antt =====
-- internal/commons/pagination.go: the window of rows that the connection arguments of a GraphQL
-- query select, and the cursors. `base64.StdEncoding` is the child `Base64`.
pub mod Base64
pub mod Bounds
pub mod Cursor
use cartesi_rollups_hl_graph.Base.{
  ℕ, ◌+◌, Bool, true, false, not, ◌&&◌, ◌||◌, Option, none, some, ltb, leb, if◌then◌else◌, ℤ, pos,
  negsuc, ltb_ℤ, min_ℤ, max_ℤ, ◌+ℤ◌, ◌-ℤ◌, Text, decimal, atoi, Result, ok, err, bind, Error,
  mixed_pagination, invalid_limit, invalid_cursor, bad_cursor,
}
use cartesi_rollups_hl_graph.Pagination.Base64.{encode, decode}

abbrev pub default_pagination_limit : ℤ
default_pagination_limit = pos 1000

abbrev pub is_set {ℓ} : {A : Type ℓ} → Option A → Bool
is_set none = false
is_set (some a) = true

unfoldable pub encode_cursor : ℕ → Text
encode_cursor offset = encode (decimal offset)

check_cursor : ℕ → Option ℤ → Result ℕ
check_cursor total none = err bad_cursor
check_cursor total (some (negsuc n)) = err invalid_cursor
check_cursor total (some (pos n)) = if ltb n total then ok n else err invalid_cursor

parse_cursor : ℕ → Option Text → Result ℕ
parse_cursor total none = err bad_cursor
parse_cursor total (some bytes) = check_cursor total (atoi bytes)

-- `total` is a row count, so it is not negative.
unfoldable pub decode_cursor : Text → ℕ → Result ℕ
unfolding parse_cursor check_cursor
decode_cursor base64_cursor total = parse_cursor total (decode base64_cursor)

-- The limit of `first` or `last`.
page_limit : Option ℤ → Result ℤ
page_limit none = ok default_pagination_limit
page_limit (some n) = if ltb_ℤ n (pos 0) then err invalid_limit else ok n

after_offset : Option Text → ℕ → Result ℤ
after_offset none total = ok (pos 0)
after_offset (some cursor) total = bind (decode_cursor cursor total) (λ n. ok (pos (n + 1)))

before_offset : Option Text → ℕ → Result ℤ
before_offset none total = ok (pos total)
before_offset (some cursor) total = bind (decode_cursor cursor total) (λ n. ok (pos n))

forward_window : ℤ → ℤ → ℕ → ℤ × ℤ
forward_window limit offset total = (offset, min_ℤ limit (pos total -ℤ offset))

backward_window : ℤ → ℤ → ℕ → ℤ × ℤ
backward_window limit before total =
    let offset = max_ℤ (pos 0) (before -ℤ limit) in (offset, min_ℤ limit (pos total -ℤ offset))

unfoldable pub compute_forward_page : Option ℤ → Option Text → ℕ → Result (ℤ × ℤ)
unfolding page_limit after_offset forward_window
compute_forward_page first after total =
    bind (page_limit first)
      λ limit. bind (after_offset after total) (λ offset. ok (forward_window limit offset total))

unfoldable pub compute_backward_page : Option ℤ → Option Text → ℕ → Result (ℤ × ℤ)
unfolding page_limit before_offset backward_window
compute_backward_page last before total =
    bind (page_limit last)
      λ limit. bind (before_offset before total) (λ b. ok (backward_window limit b total))

unfoldable pub compute_page : Option ℤ → Option ℤ → Option Text → Option Text → ℕ → Result (ℤ × ℤ)
compute_page first last after before total =
    let forward = is_set first || is_set after in
    let backward = is_set last || is_set before in
    if forward && backward
    then err mixed_pagination
    else if forward || (not forward && not backward)
    then compute_forward_page first after total
    else compute_backward_page last before total
