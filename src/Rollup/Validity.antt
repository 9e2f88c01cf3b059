-- ===== src/Rollup/Validity.antt =====
-- The well-formedness of the model between two operations: the inspects have their positions for
-- indices, the outputs of an advance and the reports are numbered without a gap, every report is one
-- of the current input, and the inspect state points at an inspect.
use cartesi_rollups_hl_graph.Base.{
  ℕ, zero, suc, ◌+◌, ◌≡◌, some, List, [], ◌∷◌, ◌++◌, length, get_elem?, ◌==◌, Bool-cases, inl, inr,
  arith, ◌∙◌, All,
}
use cartesi_rollups_hl_graph.Data.{status_unprocessed, InspectInput}
use cartesi_rollups_hl_graph.Rollup.State.{
  RollupsState, idle, advance, inspect, NonodoModel, modify_at,
}
use cartesi_rollups_hl_graph.Rollup.Operations.{first_unprocessed}

-- The indices of the elements are n, n + 1, ….
abbrev pub Numbered : {A : Type 0} → (A → ℕ) → ℕ → List A → Type 0
Numbered index n [] = Unit {0}
Numbered index n (a ∷ rest) = (index a ≡ n) × Numbered index (suc n) rest

abbrev pub StateIsValid : List InspectInput → RollupsState → Type 0
StateIsValid ps idle = Unit {0}
StateIsValid ps (advance a) =
    Numbered (λ v. v.output_index) 0 a.vouchers
    × Numbered (λ n. n.output_index) 0 a.notices
    × Numbered (λ r. r.index) 0 a.reports
    × All (λ r. r.input_index ≡ a.input.index) a.reports
StateIsValid ps (inspect s) =
    (i : InspectInput) × (get_elem? ps s.at ≡ some i)
    × (i.index ≡ s.index)
    × Numbered (λ r. r.index) 0 s.reports

pub record IsValid (m : NonodoModel) : Type 0 where
  pub inspects_numbered : Numbered (λ i. i.index) 0 m.inspects
  pub state_valid : StateIsValid m.inspects m.state

pub Numbered-append :
    {A : Type 0} (index : A → ℕ) (n : ℕ) (a : A) (rest : List A)
    → Numbered index n rest
    → index a ≡ n + length rest
    → Numbered index n (rest ++ a ∷ [])
Numbered-append index n a [] h e = (omega (arith, e), tt)
Numbered-append index n a (b ∷ rest) h e =
    (h.0, Numbered-append index (suc n) a rest h.1 (omega (arith, e)))

pub All-append :
    {A : Type 0} (P : A → Type 0) (a : A) (rest : List A)
    → All P rest
    → P a
    → All P (rest ++ a ∷ [])
All-append P a [] h p = (p, tt)
All-append P a (b ∷ rest) h p = (h.0, All-append P a rest h.1 p)

pub get_elem?-append :
    {A : Type 0} (i : ℕ) (a b : A) (rest : List A)
    → get_elem? rest i ≡ some b
    → get_elem? (rest ++ a ∷ []) i ≡ some b
get_elem?-append i a b [] h = cc
get_elem?-append zero a b (c ∷ rest) h = h
get_elem?-append (suc i) a b (c ∷ rest) h = get_elem?-append i a b rest h

pub Numbered-modify_at :
    (n i : ℕ) (f : InspectInput → InspectInput) (ps : List InspectInput)
    → ((p : InspectInput) → (f p).index ≡ p.index)
    → Numbered (λ p. p.index) n ps
    → Numbered (λ p. p.index) n (modify_at i f ps)
unfolding modify_at
Numbered-modify_at n i f [] same h = tt
Numbered-modify_at n zero f (p ∷ ps) same h = (same p ∙ h.0, h.1)
Numbered-modify_at n (suc i) f (p ∷ ps) same h = (h.0, Numbered-modify_at (suc n) i f ps same h.1)

pub get_elem?-modify_at :
    (i : ℕ) (f : InspectInput → InspectInput) (ps : List InspectInput) (p : InspectInput)
    → get_elem? ps i ≡ some p
    → get_elem? (modify_at i f ps) i ≡ some (f p)
unfolding modify_at
get_elem?-modify_at i f [] p h = cc
get_elem?-modify_at zero f (q ∷ ps) p h = cc
get_elem?-modify_at (suc i) f (q ∷ ps) p h = get_elem?-modify_at i f ps p h

pub first_unprocessed-get_elem? :
    (n k : ℕ) (i : InspectInput) (ps : List InspectInput)
    → first_unprocessed n ps ≡ some (k, i)
    → (d : ℕ) × (k ≡ n + d) × (get_elem? ps d ≡ some i)
unfolding first_unprocessed
first_unprocessed-get_elem? n k i [] h = cc
first_unprocessed-get_elem? n k i (p ∷ ps) h = elim (Bool-cases (p.status == status_unprocessed)) [
  | inl e ↦ (0, ground arith, ground arith)
  | inr e ↦
      let (d, at_d, there) = first_unprocessed-get_elem? (suc n) k i ps (ground arith) in
      (suc d, omega (arith, at_d), there)
]
