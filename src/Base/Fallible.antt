-- ===== src/Base/Fallible.antt =====
-- Fallible code. A Go function with a last result of type `error` returns a `Result`; one that
-- also writes to a store is an `Exec`, whose state comes back beside the error too, because what
-- was written before an error stays written.
use mathlib.Core.Path.{◌≡◌, refl}
use mathlib.Core.Logic.{◌⊎◌, inl, inr}

-- The errors that the modelled code tells apart. `panic` is a run-time panic of Go, such as the
-- dereference of a nil pointer or a slice out of range.

pub data Error : Type 0 where
  db_fault primary_key tx_done mixed_pagination invalid_limit invalid_cursor bad_cursor : Error
  not_implemented unexpected_field unexpected_value wrong_address not_found : Error
  bad_request canceled : Error
  wrong_event wrong_event_value : Error
  wrong_response idle_state inspect_state invalid_index bad_blob invalid_status impossible_status
        panic :
      Error

pub data Result {ℓ} (A : Type ℓ) : Type ℓ where
  ok : A → Result A
  err : Error → Result A

pub Result-cases {ℓ} :
    {A : Type ℓ} (r : Result A) → ((a : A) × (r ≡ ok a)) ⊎ ((e : Error) × (r ≡ err e))
Result-cases (ok a) = inl (a, refl)
Result-cases (err e) = inr (e, refl)

abbrev pub Exec {ℓ} : Type ℓ → Type ℓ → Type ℓ
Exec S A = S → Result A × S

-- `x, err := e; if err != nil { return nil, err }` of code that keeps no state.
abbrev pub bind {ℓ κ} : {A : Type ℓ} {B : Type κ} → Result A → (A → Result B) → Result B
bind (ok a) f = f a
bind (err e) f = err e

module _ {ℓ} {S A : Type ℓ} where
  abbrev pub pure : A → Exec S A
  pure a s = (ok a, s)

  abbrev pub raise : Error → Exec S A
  raise e s = (err e, s)

  abbrev pub lift : Result A → Exec S A
  lift r s = (r, s)

module _ {ℓ} {S A B : Type ℓ} where
  abbrev pub proceed : Result A → (A → Exec S B) → Exec S B
  proceed (ok a) f s = f a s
  proceed (err e) f s = (err e, s)

  infixl 5 ◌>>=◌ ◌>>◌
  abbrev pub ◌>>=◌ : Exec S A → (A → Exec S B) → Exec S B
  ◌>>=◌ m f s = proceed (m s).0 f (m s).1

  abbrev pub ◌>>◌ : Exec S A → Exec S B → Exec S B
  m >> n = m >>= λ _. n

module _ {ℓ} {S A B : Type ℓ} where
  -- A block that returns has a first step that returned.
  pub >>=-eq-ok :
      (m : Exec S A) (f : A → Exec S B) (s : S) {b : B}
      → ((m >>= f) s).0 ≡ ok b
      → (a : A) × ((m s).0 ≡ ok a) × ((f a (m s).1).0 ≡ ok b) × ((m >>= f) s ≡ f a (m s).1)
  >>=-eq-ok m f s h = proceed-eq-ok (m s).0 (m s).1 h
    where
      proceed-eq-ok :
          (r : Result A) (t : S) {b : B}
          → (proceed r f t).0 ≡ ok b
          → (a : A) × (r ≡ ok a) × ((f a t).0 ≡ ok b) × (proceed r f t ≡ f a t)
      proceed-eq-ok (ok a) t h = (a, refl, h, refl)
      proceed-eq-ok (err e) t h = cc
