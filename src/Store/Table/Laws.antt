-- ===== src/Store/Table/Laws.antt =====
-- What INSERT and UPDATE do to the row that a key finds, and the uniqueness of keys.
use cartesi_rollups_hl_graph.Base.{
  ◌≡◌, refl, Bool, true, none, some, List, [], ◌∷◌, ◌++◌, Bool-cases, inl, inr, if◌then◌else◌, ok,
  err, primary_key, arith, length, ap, suc, sym, ◌∙◌,
}
use cartesi_rollups_hl_graph.Store.Table.{Key, key_eq, lookup, insert, update}
use mathlib.Core.Option

pub key_eq_sound : (a b : Key) → key_eq a b ≡ true → a ≡ b
key_eq_sound (a, b) (c, d) h = ground arith

pub key_eq_refl : (a : Key) → key_eq a a ≡ true
key_eq_refl (a, b) = ground arith

pub key_eq_sym : (a b : Key) → key_eq a b ≡ key_eq b a
key_eq_sym (a, b) (c, d) = ground arith

pub key_eq_trans : (a b c : Key) → key_eq a b ≡ true → key_eq a c ≡ key_eq b c
key_eq_trans (a, b) (c, d) (e, f) h = ground arith

module _ {R : Type 0} where
  -- No two rows have the same key.
  abbrev pub IsKeyed : (R → Key) → List R → Type 0
  IsKeyed key [] = Unit {0}
  IsKeyed key (r ∷ rs) = (lookup key (key r) rs ≡ none) × IsKeyed key rs

  pub lookup-append :
      (key : R → Key) (k : Key) (r : R) (rs : List R)
      → lookup key k (rs ++ r ∷ []) ≡ elim (lookup key k rs) [
        | some s ↦ some s
        | none ↦ if key_eq (key r) k then some r else none
      ]
  unfolding lookup
  lookup-append key k r [] = refl
  lookup-append key k r (s ∷ ss) = elim (Bool-cases (key_eq (key s) k)) [
    | inl e ↦ rw e
    | inr e ↦ rw e (lookup-append key k r ss)
  ]

  pub insert-eq-ok :
      (key : R → Key) (r : R) (rs : List R) {t : List R}
      → insert key r rs ≡ ok t
      → (lookup key (key r) rs ≡ none) × (t ≡ rs ++ r ∷ [])
  unfolding insert
  insert-eq-ok key r rs h = ground arith

  pub insert_free :
      (key : R → Key) (r : R) (rs : List R)
      → lookup key (key r) rs ≡ none
      → insert key r rs ≡ ok (rs ++ r ∷ [])
  unfolding insert
  insert_free key r rs h = rw h

  pub insert_taken :
      (key : R → Key) (r s : R) (rs : List R)
      → lookup key (key r) rs ≡ some s
      → insert key r rs ≡ err primary_key
  unfolding insert
  insert_taken key r s rs h = rw h

  lookup-key_eq :
      (key : R → Key) (j k : Key) (rs : List R)
      → key_eq j k ≡ true
      → lookup key j rs ≡ lookup key k rs
  lookup-key_eq key j k rs h = ap (λ i. lookup key i rs) (key_eq_sound j k h)

  -- After an INSERT the new row is found under its key, and the others as before.
  pub lookup-insert :
      (key : R → Key) (r : R) (rs t : List R) (k : Key)
      → insert key r rs ≡ ok t
      → lookup key k t ≡ (if key_eq (key r) k then some r else lookup key k rs)
  lookup-insert key r rs t k h =
      let (free, e) = insert-eq-ok key r rs h in
      rw e (ground (arith, lookup-append key k r rs, lookup-key_eq key (key r) k rs))

  pub lookup-update :
      (key : R → Key) (p : R → Bool) (f : R → R) (k : Key) (rs : List R)
      → ((r : R) → key (f r) ≡ key r)
      → lookup key k (update p f rs) ≡ Option.map (λ r. if p r then f r else r) (lookup key k rs)
  unfolding lookup update
  lookup-update key p f k [] same = refl
  lookup-update key p f k (r ∷ rs) same = ground (arith, same r, lookup-update key p f k rs same)

  pub lookup-eq-some :
      (key : R → Key) (k : Key) (r : R) (rs : List R)
      → lookup key k rs ≡ some r
      → key_eq (key r) k ≡ true
  unfolding lookup
  lookup-eq-some key k r [] h = cc
  lookup-eq-some key k r (s ∷ ss) h = elim (Bool-cases (key_eq (key s) k)) [
    | inl e ↦ let same : s ≡ r = ground arith in ap (λ q. key_eq (key q) k) (sym same) ∙ e
    | inr e ↦ lookup-eq-some key k r ss (ground arith)
  ]

  pub length-update : (p : R → Bool) (f : R → R) (rs : List R) → length (update p f rs) ≡ length rs
  unfolding update
  length-update p f [] = refl
  length-update p f (r ∷ rs) = ap suc (length-update p f rs)

  append-IsKeyed :
      (key : R → Key) (r : R) (rs : List R)
      → IsKeyed key rs
      → lookup key (key r) rs ≡ none
      → IsKeyed key (rs ++ r ∷ [])
  append-IsKeyed key r [] u free = (unfold lookup in refl, tt)
  append-IsKeyed key r (s ∷ ss) u free = (
    unfold lookup in ground (arith, lookup-append key (key s) r ss, key_eq_sym (key r) (key s)),
    append-IsKeyed key r ss u.1 (unfold lookup in ground arith),
  )

  pub insert-IsKeyed :
      (key : R → Key) (r : R) (rs t : List R)
      → IsKeyed key rs
      → insert key r rs ≡ ok t
      → IsKeyed key t
  insert-IsKeyed key r rs t u h =
      let (free, e) = insert-eq-ok key r rs h in rw e (append-IsKeyed key r rs u free)

  pub update-IsKeyed :
      (key : R → Key) (p : R → Bool) (f : R → R) (rs : List R)
      → ((r : R) → key (f r) ≡ key r)
      → IsKeyed key rs
      → IsKeyed key (update p f rs)
  unfolding update
  update-IsKeyed key p f [] same u = tt
  update-IsKeyed key p f (r ∷ rs) same u = (
    ground (arith, same r, u.0, lookup-update key p f (key r) rs same),
    update-IsKeyed key p f rs same u.1,
  )
