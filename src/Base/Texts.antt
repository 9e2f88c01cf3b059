-- ===== src/Base/Texts.antt =====
-- Texts as the list of their bytes, their comparison, and the decimal print and parse of Go's
-- standard library (`fmt.Sprint` and `%d` of a non-negative int, `strconv.Atoi`).
use Prim.Native.Nat.{ℕ, zero, suc, ◌+◌, ◌-◌, ◌*◌, ◌/◌, ◌%◌, ◌^◌, ◌≤◌, ◌<◌}
use Prim.Native.Char.{code}
use Prim.Native.String.{String}
use mathlib.Core.Path.{◌≡◌, refl}
use mathlib.Core.Logic.{inl, inr}
use mathlib.Core.Bool.{Bool, true, false, ◌&&◌}
use mathlib.Core.Option.{Option, none, some}
use mathlib.Core.List.{List, [], ◌∷◌, ◌++◌}
use native.Mathlib.Omega.{arith}
use cartesi_rollups_hl_graph.Base.Tests.{ltb, leb, ◌==◌, Bool-cases, if◌then◌else◌}
use cartesi_rollups_hl_graph.Base.Signed.{ℤ, pos, negsuc}

abbrev pub Text : Type 0
Text = List ℕ

-- The bytes of an ASCII literal. `String` has its own `[]` and `∷`.
abbrev pub codes : String → Text
codes String.[] = []
codes (String.◌∷◌ c s) = code c ∷ codes s

unfoldable pub text_eq : Text → Text → Bool
text_eq [] [] = true
text_eq [] (d ∷ t) = false
text_eq (c ∷ s) [] = false
text_eq (c ∷ s) (d ∷ t) = c == d && text_eq s t

pub text_eq_refl : (s : Text) → text_eq s s ≡ true
unfolding text_eq
text_eq_refl [] = refl
text_eq_refl (c ∷ s) = ground (arith, text_eq_refl s)

pub text_eq_sound : (s t : Text) → text_eq s t ≡ true → s ≡ t
unfolding text_eq
text_eq_sound [] [] h = refl
text_eq_sound [] (d ∷ t) h = cc
text_eq_sound (c ∷ s) [] h = cc
text_eq_sound (c ∷ s) (d ∷ t) h = ground (arith, text_eq_sound s t)

-- The loop over the digits; a number below `10 ^ fuel` has at most `fuel` of them.
digits : ℕ → ℕ → Text
digits zero n = []
digits (suc f) n =
    let rest = digits f (n / 10) in if ltb n 10 then (48 + n) ∷ [] else rest ++ (48 + n % 10) ∷ []

unfoldable pub decimal : ℕ → Text
unfolding digits
decimal n = digits (suc n) n

abbrev pub is_digit : ℕ → Bool
is_digit c = leb 48 c && leb c 57

unfoldable pub scan : ℕ → Text → Option ℕ
scan n [] = some n
scan n (c ∷ s) = if is_digit c then scan (n * 10 + (c - 48)) s else none

abbrev pub max_int : ℕ
max_int = 2 ^ 63 - 1

-- The digits of a number, which must not be empty.
unsigned : Text → Option ℕ
unsigned [] = none
unsigned (c ∷ s) = scan 0 (c ∷ s)

-- An optional sign, digits, and the range of `int`.
in_range : Option ℕ → Option ℤ
in_range none = none
in_range (some n) = if leb n max_int then some (pos n) else none

negated : Option ℕ → Option ℤ
negated none = none
negated (some zero) = some (pos 0)
negated (some (suc n)) = if leb n max_int then some (negsuc n) else none

unfoldable pub atoi : Text → Option ℤ
unfolding scan unsigned in_range negated
atoi [] = none
atoi (c ∷ s) =
    if c == b'+'
    then in_range (unsigned s)
    else if c == b'-'
    then negated (unsigned s)
    else in_range (unsigned (c ∷ s))

scan-append :
    (n m d : ℕ) (s : Text)
    → scan n s ≡ some m
    → d < 10
    → scan n (s ++ (48 + d) ∷ []) ≡ some (m * 10 + d)
unfolding scan
scan-append n m d [] h lt = ground arith
scan-append n m d (c ∷ s) h lt = ground (arith, scan-append (n * 10 + (c - 48)) m d s)

scan-digits : (f n : ℕ) → n < f → scan 0 (digits f n) ≡ some n
unfolding scan digits
scan-digits zero n h = absurd (omega arith)
scan-digits (suc f) n h =
    ground (arith, scan-digits f (n / 10), scan-append 0 (n / 10) (n % 10) (digits f (n / 10)))

pub scan-decimal : (n : ℕ) → scan 0 (decimal n) ≡ some n
unfolding decimal
scan-decimal n = scan-digits (suc n) n (omega arith)

-- The print starts with a digit, so it is not empty and has no sign.
data StartsWithDigit : Text → Type 0 where
  starts : {c : ℕ} {s : Text} → 48 ≤ c → c ≤ 57 → StartsWithDigit (c ∷ s)

starts-append : {s : Text} (t : Text) → StartsWithDigit s → StartsWithDigit (s ++ t)
starts-append t (starts h k) = starts h k

starts-digits : (f n : ℕ) → n < f → StartsWithDigit (digits f n)
unfolding digits
starts-digits zero n h = absurd (omega arith)
starts-digits (suc f) n h = elim (Bool-cases (ltb n 10)) [
  | inl e ↦ rw e (starts (omega arith) (ground arith))
  | inr e ↦ rw e (starts-append _ (starts-digits f (n / 10) (ground arith)))
]

atoi-scan :
    {s : Text} (n : ℕ) → StartsWithDigit s → scan 0 s ≡ some n → n ≤ max_int → atoi s ≡ some (pos n)
unfolding atoi
atoi-scan n (starts h k) e b = ground arith

-- The decimal print of an `int` is read back by `Atoi`.
pub atoi-decimal : (n : ℕ) → n ≤ max_int → atoi (decimal n) ≡ some (pos n)
unfolding decimal
atoi-decimal n h =
    atoi-scan n (starts-digits (suc n) n (omega arith)) (scan-digits (suc n) n (omega arith)) h

-- Every byte is below 256.
abbrev pub AllBytes : Text → Type 0
AllBytes [] = Unit
AllBytes (c ∷ s) = (c < 256) × AllBytes s

pub AllBytes-append : (s t : Text) → AllBytes s → AllBytes t → AllBytes (s ++ t)
AllBytes-append [] t h k = k
AllBytes-append (c ∷ s) t h k = (h.0, AllBytes-append s t h.1 k)

digits-AllBytes : (f n : ℕ) → AllBytes (digits f n)
unfolding digits
digits-AllBytes zero n = tt
digits-AllBytes (suc f) n = elim (Bool-cases (ltb n 10)) [
  | inl e ↦ rw e (ground arith, tt)
  | inr e ↦ rw e (AllBytes-append _ _ (digits-AllBytes f (n / 10)) (omega arith, tt))
]

pub decimal-AllBytes : (n : ℕ) → AllBytes (decimal n)
unfolding decimal
decimal-AllBytes n = digits-AllBytes (suc n) n
