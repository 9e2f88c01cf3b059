-- ===== src/Pagination/Base64.antt =====
-- `base64.StdEncoding` of Go's standard library: EncodeToString and DecodeString.
use cartesi_rollups_hl_graph.Base.{
  ℕ, ◌+◌, ◌-◌, ◌*◌, ◌/◌, ◌%◌, ◌<◌, ◌≡◌, ◌∙◌, refl, false, ◌&&◌, ◌||◌, Option, none, some, [], ◌∷◌,
  ltb, leb, ◌==◌, if◌then◌else◌, Text, AllBytes, arith,
}

-- The character of a six-bit value.
char_of : ℕ → ℕ
char_of v =
    if ltb v 26
    then 65 + v
    else if ltb v 52
    then 97 + (v - 26)
    else if ltb v 62
    then 48 + (v - 52)
    else if v == 62
    then 43
    else 47

value_of : ℕ → Option ℕ
value_of c =
    if leb 65 c && leb c 90
    then some (c - 65)
    else if leb 97 c && leb c 122
    then some (c - 97 + 26)
    else if leb 48 c && leb c 57
    then some (c - 48 + 52)
    else if c == 43
    then some 62
    else if c == 47
    then some 63
    else none

abbrev pad : ℕ
pad = 61

unfoldable pub encode : Text → Text
unfolding char_of
encode [] = []
encode (a ∷ []) = char_of (a / 4) ∷ char_of (a % 4 * 16) ∷ pad ∷ pad ∷ []
encode (a ∷ b ∷ []) =
    char_of (a / 4) ∷ char_of (a % 4 * 16 + b / 16) ∷ char_of (b % 16 * 4) ∷ pad ∷ []
encode (a ∷ b ∷ c ∷ s) =
    char_of (a / 4)
    ∷ char_of (a % 4 * 16 + b / 16)
    ∷ char_of (b % 16 * 4 + c / 64)
    ∷ char_of (c % 64)
    ∷ encode s

-- The decoder skips CR and LF.
strip : Text → Text
strip [] = []
strip (c ∷ s) = let rest = strip s in if c == 10 || c == 13 then rest else c ∷ rest

three : Option ℕ → Option ℕ → Option ℕ → Option ℕ → Option Text → Option Text
three (some u) (some v) (some w) (some x) (some rest) =
    some ((u * 4 + v / 16) ∷ (v % 16 * 16 + w / 4) ∷ (w % 4 * 64 + x) ∷ rest)
three _ _ _ _ _ = none

two : Option ℕ → Option ℕ → Option ℕ → Option Text
two (some u) (some v) (some w) = some ((u * 4 + v / 16) ∷ (v % 16 * 16 + w / 4) ∷ [])
two _ _ _ = none

one : Option ℕ → Option ℕ → Option Text
one (some u) (some v) = some ((u * 4 + v / 16) ∷ [])
one _ _ = none

-- Groups of four; padding ends the text, and the unused low bits before it are not checked.
groups : Text → Option Text
unfolding three two one value_of
groups [] = some []
groups (a ∷ b ∷ c ∷ d ∷ []) =
    if d == pad
    then (if c == pad
        then one (value_of a) (value_of b)
        else two (value_of a) (value_of b) (value_of c))
    else three (value_of a) (value_of b) (value_of c) (value_of d) (some [])
groups (a ∷ b ∷ c ∷ d ∷ e ∷ s) =
    three (value_of a) (value_of b) (value_of c) (value_of d) (groups (e ∷ s))
groups _ = none

unfoldable pub decode : Text → Option Text
unfolding strip groups
decode s = groups (strip s)

value_of-char_of : (v : ℕ) → v < 64 → value_of (char_of v) ≡ some v
unfolding value_of char_of
value_of-char_of v h = ground arith

char_of_plain :
    (v : ℕ)
    → v < 64
    → ((char_of v == pad) ≡ false) × ((char_of v == 10) ≡ false) × ((char_of v == 13) ≡ false)
unfolding char_of
char_of_plain v h = ground arith

strip_char : (v : ℕ) (s : Text) → v < 64 → strip (char_of v ∷ s) ≡ char_of v ∷ strip s
unfolding strip
strip_char v s h = ground (arith, char_of_plain v)

strip-pad : (s : Text) → strip (pad ∷ s) ≡ pad ∷ strip s
unfolding strip
strip-pad s = refl

strip_nil : strip [] ≡ []
unfolding strip
strip_nil = refl

strip-encode : (s : Text) → AllBytes s → strip (encode s) ≡ encode s
unfolding encode
strip-encode [] h = unfold strip in refl
strip-encode (a ∷ []) h = cc (
  strip_char (a / 4) (char_of (a % 4 * 16) ∷ pad ∷ pad ∷ []) (omega arith),
  strip_char (a % 4 * 16) (pad ∷ pad ∷ []) (omega arith),
  strip-pad (pad ∷ []),
  strip-pad [],
  strip_nil,
)
strip-encode (a ∷ b ∷ []) h = cc (
  strip_char (a / 4) (char_of (a % 4 * 16 + b / 16) ∷ char_of (b % 16 * 4) ∷ pad ∷ [])
      (omega arith),
  strip_char (a % 4 * 16 + b / 16) (char_of (b % 16 * 4) ∷ pad ∷ []) (omega arith),
  strip_char (b % 16 * 4) (pad ∷ []) (omega arith),
  strip-pad [],
  strip_nil,
)
strip-encode (a ∷ b ∷ c ∷ s) h = cc (
  strip_char (a / 4)
      (char_of (a % 4 * 16 + b / 16) ∷ char_of (b % 16 * 4 + c / 64) ∷ char_of (c % 64) ∷ encode s)
      (omega arith),
  strip_char (a % 4 * 16 + b / 16) (char_of (b % 16 * 4 + c / 64) ∷ char_of (c % 64) ∷ encode s)
      (omega arith),
  strip_char (b % 16 * 4 + c / 64) (char_of (c % 64) ∷ encode s) (omega arith),
  strip_char (c % 64) (encode s) (omega arith),
  strip-encode s h.1.1.1,
)

groups_more :
    (a b c d : ℕ) (s : Text)
    → (d == pad) ≡ false
    → groups (a ∷ b ∷ c ∷ d ∷ s)
      ≡ three (value_of a) (value_of b) (value_of c) (value_of d) (groups s)
unfolding groups
groups_more a b c d [] h = rw h
groups_more a b c d (e ∷ s) h = refl

groups-encode : (s : Text) → AllBytes s → groups (encode s) ≡ some s
unfolding encode
groups-encode [] h = unfold groups in refl
groups-encode (a ∷ []) h =
    unfold groups in ground (arith, value_of-char_of (a / 4), value_of-char_of (a % 4 * 16))
groups-encode (a ∷ b ∷ []) h =
    unfold groups in
    ground (
      arith,
      value_of-char_of (a / 4),
      value_of-char_of (a % 4 * 16 + b / 16),
      value_of-char_of (b % 16 * 4),
      char_of_plain (b % 16 * 4),
    )
groups-encode (a ∷ b ∷ c ∷ s) h =
    groups_more _ _ _ _ (encode s) (char_of_plain (c % 64) (omega arith)).0
    ∙ rw
        (
          value_of-char_of (a / 4) (omega arith),
          value_of-char_of (a % 4 * 16 + b / 16) (omega arith),
          value_of-char_of (b % 16 * 4 + c / 64) (omega arith),
          value_of-char_of (c % 64) (omega arith),
          groups-encode s h.1.1.1,
        )
        (unfold three in ground arith)

-- What is encoded is decoded again.
pub decode-encode : (s : Text) → AllBytes s → decode (encode s) ≡ some s
unfolding decode
decode-encode s h = rw (strip-encode s h) (groups-encode s h)
