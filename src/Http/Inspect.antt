-- ===== src/Http/Inspect.antt =====
-- internal/inspect/inspect.go: the handlers of /inspect. What `io.ReadAll` makes of the body is an
-- argument. The loop that waits for the inspect has no bound in the source: here it has fuel, and
-- nothing is returned when that runs out.
use cartesi_rollups_hl_graph.Base.{
  ℕ, zero, suc, ◌+◌, ◌-◌, ◌*◌, ◌&&◌, Option, none, some, List, [], ◌∷◌, map, Text, length, drop,
  ltb, leb, ◌==◌, if◌then◌else◌, ℤ, pos, Result, ok, err, bind, invalid_status, impossible_status,
  canceled, panic, bad_request,
}
use cartesi_rollups_hl_graph.External.{External}
use cartesi_rollups_hl_graph.Data.{
  status_unprocessed, status_accepted, status_rejected, status_exception, InspectInput,
}
use cartesi_rollups_hl_graph.Http.{Response, Others, string, error_text, json, respond}
use cartesi_rollups_hl_graph.Rollup.State.{NonodoModel}
use cartesi_rollups_hl_graph.Rollup.Operations.{add_inspect_input, get_inspect_input}

abbrev pub payload_size_limit : ℕ
payload_size_limit = 1048576

pub data CompletionStatus : Type 0 where
  accepted rejected exception : CompletionStatus

pub record InspectResult : Type 0 where
  pub status : CompletionStatus
  pub reports : List Text
  pub exception_payload : Text
  pub processed_input_count : ℤ

-- What a poll of the loop leads to: the handler returns, or polls again.
abbrev pub Returned : Type 0
Returned = Result (Response InspectResult) × NonodoModel

-- The `switch` on the status.
unfoldable pub completion_of : ℕ → Result CompletionStatus
completion_of status =
    if status == status_unprocessed
    then err impossible_status
    else if status == status_accepted
    then ok accepted
    else if status == status_rejected
    then ok rejected
    else if status == status_exception
    then ok exception
    else err invalid_status

-- `url.QueryUnescape` of the standard library, on bytes: `+` is a blank, and `%` takes two
-- hexadecimal digits.
abbrev hex_digit : ℕ → Option ℕ
hex_digit c =
    if leb b'0' c && leb c b'9'
    then some (c - b'0')
    else if leb b'a' c && leb c b'f'
    then some (c - b'a' + 10)
    else if leb b'A' c && leb c b'F'
    then some (c - b'A' + 10)
    else none

abbrev prefixed : Option ℕ → Option Text → Option Text
prefixed none s = none
prefixed (some c) none = none
prefixed (some c) (some s) = some (c ∷ s)

abbrev hex_byte : Option ℕ → Option ℕ → Option ℕ
hex_byte none b = none
hex_byte (some a) none = none
hex_byte (some a) (some b) = some (a * 16 + b)

abbrev plain : ℕ → ℕ
plain c = if c == b'+' then 32 else c

unfoldable pub query_unescape : Text → Option Text
query_unescape [] = some []
query_unescape (c ∷ []) = if c == b'%' then none else some (plain c ∷ [])
query_unescape (c ∷ a ∷ []) =
    let rest = query_unescape (a ∷ []) in if c == b'%' then none else prefixed (some (plain c)) rest
query_unescape (c ∷ a ∷ b ∷ s) =
    let rest = query_unescape (a ∷ b ∷ s) in
    let behind = query_unescape s in
    if c == b'%'
    then prefixed (hex_byte (hex_digit a) (hex_digit b)) behind
    else prefixed (some (plain c)) rest

module _ ⦃x : External⦄ where
  -- convertInput
  unfoldable pub convert_input : InspectInput → Result InspectResult
  unfolding completion_of
  convert_input i = bind (completion_of i.status) λ status. ok (record {
    status = status;
    reports = map (λ r. x.hexutil_encode r.payload) i.reports;
    exception_payload = x.hexutil_encode i.exception;
    processed_input_count = i.processed_input_count;
  })

  unfoldable pub finished : NonodoModel → Result InspectResult → Returned
  finished m (err e) = (err e, m)
  finished m (ok result) = (ok (respond 200 (json result)), m)

  -- The pause behind a poll of an inspect that is not processed.
  abbrev pub pause :
      Option NonodoModel → NonodoModel → (NonodoModel → Option Returned) → Option Returned
  pause none m rest = some (err canceled, m)
  pause (some n) m rest = rest n

  unfoldable pub polled :
      Others
      → ℕ
      → NonodoModel
      → (NonodoModel → Option Returned)
      → Result InspectInput
      → Option Returned
  unfolding finished
  polled others i m rest (err e) = some (err e, m)
  polled others i m rest (ok input) =
      if input.status == status_unprocessed
      then pause (others i m) m rest
      else some (finished m (convert_input input))

  -- The loop at the poll `i`.
  unfoldable pub poll : Others → ℕ → ℕ → ℕ → NonodoModel → Option Returned
  unfolding polled
  poll others index zero i m = none
  poll others index (suc fuel) i m =
      let rest = poll others index fuel (suc i) in
      polled others i m rest (get_inspect_input (pos index) m)

  -- inspect
  unfoldable pub inspect : Others → ℕ → Text → NonodoModel → Option Returned
  unfolding poll
  inspect others fuel payload m =
      let (index, asked) = add_inspect_input payload m in poll others index fuel 0 asked

  -- InspectPost
  unfoldable pub inspect_post : Others → ℕ → Result Text → NonodoModel → Option Returned
  inspect_post others fuel (err e) m = some (ok (respond 400 (error_text e)), m)
  inspect_post others fuel (ok payload) m =
      if ltb payload_size_limit (length payload)
      then some (ok (respond 400 (string "Payload reached size limit")), m)
      else inspect others fuel payload m

  unescaped : Others → ℕ → Option Text → NonodoModel → Option Returned
  unescaped others fuel none m = some (ok (respond 400 (error_text bad_request)), m)
  unescaped others fuel (some payload) m = inspect others fuel payload m

  -- Inspect, whose slice of the request's URI panics on a shorter one.
  unfoldable pub inspect_get : Others → ℕ → Text → NonodoModel → Option Returned
  unfolding unescaped query_unescape
  inspect_get others fuel uri m =
      if ltb (length uri) 9
      then some (err panic, m)
      else unescaped others fuel (query_unescape (drop 9 uri)) m
