-- ===== src/Repository/Query/Meaning.antt =====
-- The queries that the repositories build, and what the filters say.
use mathlib.Core.Path.{subst}
use mathlib.Core.List.{append_assoc}
use cartesi_rollups_hl_graph.Base.{
  ℕ, suc, ◌+◌, ◌≡◌, refl, sym, ◌∙◌, Bool, true, false, ◌&&◌, Option, some, List, [], ◌∷◌, ◌++◌,
  length, get_elem?, Result, ok, err, arith, Result-cases, inl, inr, ap, length-append,
}
use cartesi_rollups_hl_graph.External.{External}
use cartesi_rollups_hl_graph.Data.{ConvenienceFilter}
use cartesi_rollups_hl_graph.Repository.Query.{
  Column, Arg, Value, Clause, Where, Comparison, empty_where, add_comparison, transform,
  compare_value, argument, holds, all_hold, holds_with,
}

get_elem?-length :
    (args more : List Arg) (a : Arg) → get_elem? (args ++ a ∷ more) (length args) ≡ some a
get_elem?-length [] more a = refl
get_elem?-length (b ∷ args) more a = get_elem?-length args more a

&&_assoc : (a b c : Bool) → (a && b && c) ≡ (a && (b && c))
&&_assoc true b c = refl
&&_assoc false b c = refl

&&_true : (a : Bool) → (a && true) ≡ a
&&_true true = refl
&&_true false = refl

module _ ⦃x : External⦄ where
  pub argument-length :
      (args more : List Arg) (a : Arg) → argument (args ++ a ∷ more) (length args + 1) ≡ some a
  unfolding argument
  argument-length args more a =
      let e : length args + 1 ≡ suc (length args) = omega arith in
      rw e (get_elem?-length args more a)

  module _ {R : Type 0} (value : R → Column → Value) where
    all_hold-append :
        (args : List Arg) (cs : List Clause) (c : Clause) (r : R)
        → all_hold value args (cs ++ c ∷ []) r ≡ (all_hold value args cs r && holds value args r c)
    unfolding all_hold
    all_hold-append args [] c r = &&_true (holds value args r c)
    all_hold-append args (d ∷ cs) c r =
        ap (λ b. holds value args r d && b) (all_hold-append args cs c r)
        ∙ sym (&&_assoc (holds value args r d) (all_hold value args cs r) (holds value args r c))

    holds_last :
        (w : Where) (c : Comparison) (more : List Arg) (r : R)
        → w.count ≡ length w.args + 1
        → holds value
            (w.args ++ c.arg ∷ more)
            r
            (record { column = c.column; op = c.op; placeholder = w.count })
          ≡ compare_value c.op (value r c.column) c.arg
    unfolding holds
    holds_last w c more r e =
        ap (λ (o : Option Arg). holds_with c.op (value r c.column) o)
          (ap (λ (n : ℕ). argument (w.args ++ c.arg ∷ more) n) e
            ∙ argument-length w.args more c.arg)

    -- The clauses of `w` select what `p` holds of, also when more arguments follow.
    record Denotes (w : Where) (p : R → Bool) : Type 0 where
      rows : (more : List Arg) (r : R) → all_hold value (w.args ++ more) w.clauses r ≡ p r
      next : w.count ≡ length w.args + 1

    Denotes-empty : Denotes empty_where (λ r. true)
    Denotes-empty = record { rows = λ more r. unfold all_hold in refl; next = refl }

    Denotes-add :
        (w : Where) (p : R → Bool) (c : Comparison)
        → Denotes w p
        → Denotes (add_comparison w c) (λ r. p r && compare_value c.op (value r c.column) c.arg)
    Denotes-add w p c d = record {
      rows = λ more r.
          rw (append_assoc, all_hold-append)
            (rw (d.rows (c.arg ∷ more) r) (ap (λ b. p r && b) (holds_last w c more r d.next)));
      next = omega (arith, d.next, length-append w.args (c.arg ∷ []));
    }

    module _ (comparison : ConvenienceFilter → Result Comparison) where
      meets_one : Result Comparison → R → Bool
      meets_one (ok c) r = compare_value c.op (value r c.column) c.arg
      meets_one (err e) r = false

      -- What the filters say of a row, with no query in between.
      unfoldable pub meets : List ConvenienceFilter → R → Bool
      unfolding meets_one
      meets [] r = true
      meets (f ∷ fs) r = meets_one (comparison f) r && meets fs r

      Denotes-cong :
          (w : Where) (p q : R → Bool) → Denotes w p → ((r : R) → p r ≡ q r) → Denotes w q
      Denotes-cong w p q d e = record { rows = λ more r. d.rows more r ∙ e r; next = d.next }

      transform-Denotes :
          (fs : List ConvenienceFilter) (w v : Where) (p : R → Bool)
          → Denotes w p
          → transform comparison w fs ≡ ok v
          → Denotes v (λ r. p r && meets fs r)
      unfolding transform meets
      transform-Denotes [] w v p d h =
          let same : w ≡ v = ground arith in
          subst (λ u. Denotes u (λ r. p r && true)) same
            (Denotes-cong w p _ d (λ r. sym (&&_true (p r))))
      transform-Denotes (f ∷ fs) w v p d h = elim (Result-cases (comparison f)) [
        | inl (c, e) ↦
            let k : transform comparison (add_comparison w c) fs ≡ ok v = rw e at h in
            Denotes-cong v _ _
              (transform-Denotes fs (add_comparison w c) v _ (Denotes-add w p c d) k)
              (λ r. rw e (&&_assoc (p r) _ _))
        | inr (y, e) ↦ ground arith
      ]

      -- The rows that a built WHERE clause selects are those that meet the filters, and the next
      -- placeholder is free.
      pub transform-meets :
          (fs : List ConvenienceFilter) (w : Where)
          → transform comparison empty_where fs ≡ ok w
          → ((more : List Arg) (r : R) → all_hold value (w.args ++ more) w.clauses r ≡ meets fs r)
            × (w.count ≡ length w.args + 1)
      transform-meets fs w h =
          let d : Denotes w (λ r. meets fs r) =
            transform-Denotes fs empty_where w _ Denotes-empty h in
          (d.rows, d.next)
