-- ===== src/Base/Bytes.antt =====
-- Numbers as their bytes, the most significant first, and the copies of Go into arrays.
use Prim.Native.Nat.{ℕ, zero, suc, ◌+◌, ◌*◌, ◌-◌, ◌/◌, ◌%◌, ◌^◌, ◌≤◌, ◌<◌}
use mathlib.Core.Path.{◌≡◌, refl, ap}
use mathlib.Core.List.{[], ◌∷◌, ◌++◌}
use native.Mathlib.Omega.{arith}
use cartesi_rollups_hl_graph.Base.Lists.{length, length-append, take, drop}
use cartesi_rollups_hl_graph.Base.Tests.{leb, if◌then◌else◌}
use cartesi_rollups_hl_graph.Base.Fallible.{Result, ok, err, panic}
use cartesi_rollups_hl_graph.Base.Texts.{Text, AllBytes, AllBytes-append}

-- The number that bytes spell, behind the number `n`.
unfoldable pub spelled : ℕ → Text → ℕ
spelled n [] = n
spelled n (c ∷ s) = spelled (n * 256 + c) s

-- The last `n` bytes of a number.
unfoldable pub spell : ℕ → ℕ → Text
spell zero a = []
spell (suc n) a = spell n (a / 256) ++ a % 256 ∷ []

spelled-append : (n c : ℕ) (s : Text) → spelled n (s ++ c ∷ []) ≡ spelled n s * 256 + c
unfolding spelled
spelled-append n c [] = refl
spelled-append n c (d ∷ s) = spelled-append (n * 256 + d) c s

pub spelled-spell : (n a : ℕ) → a < 256 ^ n → spelled 0 (spell n a) ≡ a
unfolding spelled spell
spelled-spell zero a h = omega arith
spelled-spell (suc n) a h =
    omega (arith, spelled-append 0 (a % 256) (spell n (a / 256)), spelled-spell n (a / 256) smaller)
  where
    scaled : 256 ^ suc n ≡ 256 ^ n * 256
    scaled = grind arith

    smaller : a / 256 < 256 ^ n
    smaller = omega (arith, h, scaled)

pub length-spell : (n a : ℕ) → length (spell n a) ≡ n
unfolding spell
length-spell zero a = refl
length-spell (suc n) a =
    omega (arith, length-append (spell n (a / 256)) (a % 256 ∷ []), length-spell n (a / 256))

pub spell-AllBytes : (n a : ℕ) → AllBytes (spell n a)
unfolding spell
spell-AllBytes zero a = tt
spell-AllBytes (suc n) a =
    AllBytes-append (spell n (a / 256)) _ (spell-AllBytes n (a / 256)) (omega arith, tt)

-- `s[n:]` and `s[lo:hi]`; a slice out of range is a panic, and no slice has a capacity beyond its length.
unfoldable pub slice_from : ℕ → Text → Result Text
slice_from n s = if leb n (length s) then ok (drop n s) else err panic

unfoldable pub slice : ℕ → ℕ → Text → Result Text
slice lo hi s = if leb hi (length s) then ok (take (hi - lo) (drop lo s)) else err panic

pub slice-ok :
    (lo hi : ℕ) (s : Text) → hi ≤ length s → slice lo hi s ≡ ok (take (hi - lo) (drop lo s))
unfolding slice
slice-ok lo hi s h = ground arith

pub slice_from-ok : (n : ℕ) (s : Text) → n ≤ length s → slice_from n s ≡ ok (drop n s)
unfolding slice_from
slice_from-ok n s h = ground arith

-- `var array [n]byte; copy(array[:], s)`
unfoldable pub copy_into : ℕ → Text → Text
copy_into zero s = []
copy_into (suc n) [] = 0 ∷ copy_into n []
copy_into (suc n) (c ∷ s) = c ∷ copy_into n s

pub length-copy_into : (n : ℕ) (s : Text) → length (copy_into n s) ≡ n
unfolding copy_into
length-copy_into zero s = refl
length-copy_into (suc n) [] = ap suc (length-copy_into n [])
length-copy_into (suc n) (c ∷ s) = ap suc (length-copy_into n s)

-- An array of the length of what is copied into it holds just that.
pub copy_into_all : (n : ℕ) (s : Text) → length s ≡ n → copy_into n s ≡ s
unfolding copy_into
copy_into_all zero [] h = refl
copy_into_all zero (c ∷ s) h = absurd (omega (arith, h))
copy_into_all (suc n) [] h = absurd (omega (arith, h))
copy_into_all (suc n) (c ∷ s) h = ap (λ l. c ∷ l) (copy_into_all n s (omega (arith, h)))
