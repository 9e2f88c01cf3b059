-- ===== src/Store/Table/Order.antt =====
-- ORDER BY keeps the rows and sorts them.
use mathlib.Core.Path.{subst}
use cartesi_rollups_hl_graph.Base.{
  ℕ, ◌≤◌, ◌≡◌, Bool, true, false, none, some, List, [], ◌∷◌, find, ltb, Bool-cases, inl, inr, arith,
  All, Some, first, later, find-eq-some, find-eq-none, ◌⊎◌,
}
use cartesi_rollups_hl_graph.Store.Table.{order_by, place}

Some-cons :
    {A : Type 0} {P : A → Type 0} {a : A} {rest : List A} → Some P (a ∷ rest) → P a ⊎ Some P rest
Some-cons (first pa) = inl pa
Some-cons (later there) = inr there

module _ {A : Type 0} (P : A → Type 0) (before : A → A → Bool) where
  place-All : (a : A) (rest : List A) → All P (place before a rest) → P a × All P rest
  unfolding place
  place-All a [] h = (h.0, tt)
  place-All a (b ∷ rest) h = elim (Bool-cases (before b a)) [
    | inl e ↦
        let k : P b × All P (place before a rest) = rw e at h in
        let (pa, all) = place-All a rest k.1 in (pa, (k.0, all))
    | inr e ↦ let k : P a × (P b × All P rest) = rw e at h in k
  ]

  pub All-order_by : (xs : List A) → All P (order_by before xs) → All P xs
  unfolding order_by
  All-order_by [] h = tt
  All-order_by (a ∷ rest) h =
      let (pa, all) = place-All a (order_by before rest) h in (pa, All-order_by rest all)

  All-place : (a : A) (rest : List A) → P a → All P rest → All P (place before a rest)
  unfolding place
  All-place a [] pa h = (pa, tt)
  All-place a (b ∷ rest) pa h = elim (Bool-cases (before b a)) [
    | inl e ↦ rw e (h.0, All-place a rest pa h.1)
    | inr e ↦ rw e (pa, h)
  ]

  pub order_by-All : (xs : List A) → All P xs → All P (order_by before xs)
  unfolding order_by
  order_by-All [] h = tt
  order_by-All (a ∷ rest) h = All-place a (order_by before rest) h.0 (order_by-All rest h.1)

  Some-place : (a : A) (rest : List A) → Some P (place before a rest) → P a ⊎ Some P rest
  unfolding place
  Some-place a [] h = Some-cons h
  Some-place a (b ∷ rest) h = elim (Bool-cases (before b a)) [
    | inl e ↦
        let k : Some P (b ∷ place before a rest) = rw e at h in
        elim (Some-cons k) [
          | inl pb ↦ inr (first pb)
          | inr more ↦ elim (Some-place a rest more) [
            | inl pa ↦ inl pa
            | inr there ↦ inr (later there)
          ]
        ]
    | inr e ↦ let k : Some P (a ∷ b ∷ rest) = rw e at h in Some-cons k
  ]

  pub Some-order_by : (xs : List A) → Some P (order_by before xs) → Some P xs
  unfolding order_by
  Some-order_by [] h = h
  Some-order_by (a ∷ rest) h = elim (Some-place a (order_by before rest) h) [
    | inl pa ↦ first pa
    | inr there ↦ later (Some-order_by rest there)
  ]

module _ {A : Type 0} (index : A → ℕ) where
  -- Ascending by the index.
  abbrev Ascending : List A → Type 0
  Ascending [] = Unit {0}
  Ascending (a ∷ rest) = All (λ b. index a ≤ index b) rest × Ascending rest

  abbrev by_index : A → A → Bool
  by_index a b = ltb (index a) (index b)

  All-weaken :
      (n m : ℕ) (rest : List A) → n ≤ m → All (λ b. m ≤ index b) rest → All (λ b. n ≤ index b) rest
  All-weaken n m [] le h = tt
  All-weaken n m (b ∷ rest) le h = (omega (arith, h.0), All-weaken n m rest le h.1)

  place-Ascending : (a : A) (rest : List A) → Ascending rest → Ascending (place by_index a rest)
  unfolding place
  place-Ascending a [] h = (tt, tt)
  place-Ascending a (b ∷ rest) h = elim (Bool-cases (by_index b a)) [
    | inl e ↦ rw e (
      All-place (λ c. index b ≤ index c) by_index a rest (ground arith) h.0,
      place-Ascending a rest h.1,
    )
    | inr e ↦
        let le : index a ≤ index b = ground arith in
        rw e ((le, All-weaken (index a) (index b) rest le h.0), h)
  ]

  order_by-Ascending : (xs : List A) → Ascending (order_by by_index xs)
  unfolding order_by
  order_by-Ascending [] = tt
  order_by-Ascending (a ∷ rest) = place-Ascending a _ (order_by-Ascending rest)

  -- The first row of an ascending list that passes a test has the least index of all that do.
  find-least :
      (p : A → Bool) (xs : List A) (a : A)
      → Ascending xs
      → find p xs ≡ some a
      → All (λ b. p b ≡ true → index a ≤ index b) xs
  find-least p [] a u h = tt
  find-least p (b ∷ rest) a u h = elim (Bool-cases (p b)) [
    | inl e ↦
        let same : b ≡ a = ground arith in
        subst (λ y. All (λ c. p c ≡ true → index y ≤ index c) (b ∷ rest)) same
          ((λ _. omega arith), All_any b rest u.0)
    | inr e ↦ ((λ q. cc), find-least p rest a u.1 (ground arith))
  ]
    where
      All_any :
          (b : A) (rest : List A)
          → All (λ c. index b ≤ index c) rest
          → All (λ c. p c ≡ true → index b ≤ index c) rest
      All_any b [] h = tt
      All_any b (c ∷ rest) h = ((λ _. h.0), All_any b rest h.1)

  pub find-order_by :
      (p : A → Bool) (xs : List A) (a : A)
      → find p (order_by by_index xs) ≡ some a
      → (p a ≡ true) × Some (λ b. b ≡ a) xs × All (λ b. p b ≡ true → index a ≤ index b) xs
  find-order_by p xs a h =
      let (holds, there) = find-eq-some p _ a h in
      (
        holds,
        Some-order_by (λ b. b ≡ a) by_index xs there,
        All-order_by (λ b. p b ≡ true → index a ≤ index b) by_index xs
            (find-least p _ a (order_by-Ascending xs) h),
      )

  pub find-order_by-none :
      (p : A → Bool) (xs : List A)
      → find p (order_by by_index xs) ≡ none
      → All (λ b. p b ≡ false) xs
  find-order_by-none p xs h = All-order_by (λ b. p b ≡ false) by_index xs (find-eq-none p _ h)
