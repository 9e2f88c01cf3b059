-- ===== src/Http.antt =====
-- internal/rollup/rollup.go and internal/inspect/inspect.go: the HTTP requests and responses that the
-- handlers share. What echo's `Bind` makes of the body of a request, a value or an error, is a part of
-- the request, and so is its `Content-Type`. A response is what the handler passes to `String`, `JSON`
-- or `NoContent`; an error that the handler returns is the error of its `Exec`.
pub mod Outputs
pub mod Refusals
pub mod Finish
pub mod Once
pub mod Convert
pub mod Inspect
pub mod Served
pub mod Answered
pub mod Gio
pub mod Fetches
use cartesi_rollups_hl_graph.Base.{
  spelled, spell, ℕ, zero, suc, ◌+◌, ◌*◌, ◌/◌, ◌%◌, Bool, true, false, ◌&&◌, Option, none, some, [],
  ◌∷◌, ◌++◌, String, Text, codes, ◌==◌, if◌then◌else◌, Error, Result, ok, err, Exec, pure, lift,
  ◌>>=◌,
}
use cartesi_rollups_hl_graph.External.{Address}
use cartesi_rollups_hl_graph.Rollup.State.{NonodoModel}

pub record Request (B : Type 0) : Type 0 where
  pub content_type : Text
  pub body : Result B

-- `error_text` is the text of an error, `err.Error()`.
pub data Body (B : Type 0) : Type 0 where
  string : String → Body B
  error_text : Error → Body B
  json : B → Body B
  no_content : Body B

pub record Response (B : Type 0) : Type 0 where
  pub status : ℕ
  pub body : Body B

-- Between two polls of a handler the other components run: `others i m` is the model after the pause
-- behind the poll `i`, or nothing if the request was canceled in it.
abbrev pub Others : Type 0
Others = ℕ → NonodoModel → Option NonodoModel

abbrev pub respond : {B : Type 0} → ℕ → Body B → Response B
respond status body = record { status = status; body = body }

-- `strings.HasPrefix`, of the standard library
unfoldable pub has_prefix : Text → Text → Bool
has_prefix s [] = true
has_prefix [] (c ∷ p) = false
has_prefix (a ∷ s) (c ∷ p) = a == c && has_prefix s p

unfoldable pub check_content_type : {B : Type 0} → Request B → Bool
unfolding has_prefix
check_content_type r = has_prefix r.content_type (codes "application/json")

-- The first statements of a handler: the content type, then the body.
unfoldable pub with_body :
    {S A B : Type 0} → Request A → (A → Exec S (Response B)) → Exec S (Response B)
with_body r handle =
    if check_content_type r
    then lift r.body >>= handle
    else pure (respond 415 (string "invalid content type"))

-- `hexutil.Decode` of a field, whose error is a response.
abbrev pub with_bytes :
    {S B : Type 0} → Option Text → (Text → Exec S (Response B)) → Exec S (Response B)
with_bytes none handle = pure (respond 400 (string "invalid hex payload"))
with_bytes (some bytes) handle = handle bytes

-- The conversion `common.Address(bytes)` of 20 bytes, the number that they spell.
unfoldable pub address_of_bytes : Text → Address
address_of_bytes = spelled 0

-- `address[:]`
unfoldable pub address_bytes : Address → Text
address_bytes = spell 20
