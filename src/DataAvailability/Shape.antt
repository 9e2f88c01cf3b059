-- ===== src/DataAvailability/Shape.antt =====
-- internal/dataavailability/convert.go: where the namespaces and the digest of a node stand in its bytes.
use cartesi_rollups_hl_graph.Base.{
  slice-ok, slice_from-ok, ℕ, suc, ◌+◌, ◌-◌, ◌≤◌, ◌≡◌, refl, sym, ap, ◌∙◌, [], ◌∷◌, ◌++◌, Text,
  length, take, drop, slice_from, copy_into, copy_into_all, length-copy_into, length-take,
  length-drop, take-append-drop, drop-drop, List-cases, inl, inr, ok, arith,
}
use cartesi_rollups_hl_graph.DataAvailability.Convert.{
  Namespace, NamespaceNode, first_byte, min_namespace, max_namespace, to_namespace_node,
}

abbrev pub IsNamespace : Namespace → Type 0
IsNamespace n = length n.id ≡ 28

abbrev pub IsNode : NamespaceNode → Type 0
IsNode n = IsNamespace n.min × IsNamespace n.max × (length n.digest ≡ 32)

-- The bytes of a node, as the other chain writes them.
abbrev pub node_bytes : NamespaceNode → Text
node_bytes n = n.min.version ∷ (n.min.id ++ n.max.version ∷ (n.max.id ++ n.digest))

node : ℕ → ℕ → Text → Text → NamespaceNode
node c d s rest = record {
  min = record { version = c; id = copy_into 28 (take 28 s) };
  max = record { version = d; id = copy_into 28 (take 28 rest) };
  digest = copy_into 32 (drop 28 rest);
}

module _ (c d : ℕ) (s rest : Text) (e : drop 28 s ≡ d ∷ rest) (long : 28 ≤ length rest) where
  min_namespace-ok :
      28 ≤ length s
      → min_namespace (c ∷ s) ≡ ok (record { version = c; id = copy_into 28 (take 28 s) })
  unfolding min_namespace first_byte
  min_namespace-ok h = rw (slice-ok 1 29 (c ∷ s) (omega arith)) refl

  behind : (n : ℕ) → drop (29 + n) s ≡ drop n rest
  behind n =
      let k : 29 + n ≡ 28 + suc n = omega arith in
      ap (λ k. drop k s) k ∙ sym (drop-drop 28 (suc n) s) ∙ ap (λ l. drop (suc n) l) e

  max_namespace-ok :
      57 ≤ length s
      → max_namespace (c ∷ s) ≡ ok (record { version = d; id = copy_into 28 (take 28 rest) })
  unfolding max_namespace first_byte
  max_namespace-ok h =
      rw (slice_from-ok 29 (c ∷ s) (omega arith), e, slice-ok 30 58 (c ∷ s) (omega arith), behind 0)
        refl

  digest-ok : 57 ≤ length s → slice_from 58 (c ∷ s) ≡ ok (drop 28 rest)
  digest-ok h = rw (slice_from-ok 58 (c ∷ s) (omega arith)) (ap ok (behind 28))

  to_namespace_node-ok : 57 ≤ length s → to_namespace_node (c ∷ s) ≡ ok (node c d s rest)
  unfolding to_namespace_node node
  to_namespace_node-ok h = rw (min_namespace-ok (omega arith), max_namespace-ok h, digest-ok h) refl

  node_bytes-node : 28 ≤ length s → length rest ≡ 60 → node_bytes (node c d s rest) ≡ c ∷ s
  unfolding node
  node_bytes-node h k =
      let first : copy_into 28 (take 28 s) ≡ take 28 s =
        copy_into_all 28 (take 28 s) (omega (arith, length-take 28 s)) in
      let second : copy_into 28 (take 28 rest) ≡ take 28 rest =
        copy_into_all 28 (take 28 rest) (omega (arith, length-take 28 rest)) in
      let third : copy_into 32 (drop 28 rest) ≡ drop 28 rest =
        copy_into_all 32 (drop 28 rest) (omega (arith, length-drop 28 rest)) in
      let tail : take 28 rest ++ drop 28 rest ≡ rest = take-append-drop 28 rest in
      let whole : take 28 s ++ drop 28 s ≡ s = take-append-drop 28 s in
      rw (first, second, third, tail) (ap (λ l. c ∷ l) (ap (λ l. take 28 s ++ l) (sym e) ∙ whole))

-- The two namespaces and the digest of a node, from at least 58 bytes; of the 90 bytes that a node has,
-- none is lost or moved.
pub to_namespace_node-IsNode :
    (s : Text)
    → 58 ≤ length s
    → (n : NamespaceNode) × (to_namespace_node s ≡ ok n)
      × IsNode n
      × (length s ≡ 90 → node_bytes n ≡ s)
to_namespace_node-IsNode [] h = absurd (omega arith)
to_namespace_node-IsNode (c ∷ s) h = elim (List-cases (drop 28 s)) [
  | inl e ↦ absurd (omega (arith, ap length e, length-drop 28 s))
  | inr (d, rest, e) ↦
      let size : length (d ∷ rest) ≡ length s - 28 = sym (ap length e) ∙ length-drop 28 s in
      (
        node c d s rest,
        to_namespace_node-ok c d s rest e (omega (arith, size)) (omega arith),
        unfold node in (length-copy_into 28 _, length-copy_into 28 _, length-copy_into 32 _),
        λ q.
            node_bytes-node c d s rest e (omega (arith, size)) (omega arith)
              (omega (arith, size, q)),
      )
]
