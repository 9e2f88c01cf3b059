-- ===== src/DataAvailability/Carries.antt =====
-- internal/dataavailability/convert.go and celestia.go: what the proof for the contract holds of the one
-- that the other chain gives.
use cartesi_rollups_hl_graph.Base.{
  ℕ, ◌%◌, ◌^◌, ◌<◌, ◌≡◌, refl, ap, ◌∙◌, List, [], ◌∷◌, ◌++◌, map, Text, length, take, copy_into,
  copy_into_all, slice-ok, pos, Result, ok, arith, All, ltb, true, take_all,
}
use cartesi_rollups_hl_graph.External.{External}
use cartesi_rollups_hl_graph.DataAvailability.Commitments.{DataCommitment, to_int64}
use cartesi_rollups_hl_graph.DataAvailability.Convert.{
  NamespaceNode, NamespaceMerkleMultiproof, BinaryMerkleProof, NmtProof, MerkleProof, each,
  to_namespace_node, to_namespace_merkle_multi_proof, to_namespace_merkle_multi_proofs,
  to_row_roots, to_row_proofs, to_row_proof, to_attestation_proof, namespace,
}
use cartesi_rollups_hl_graph.DataAvailability.Shape.{IsNode, node_bytes, to_namespace_node-IsNode}
use cartesi_rollups_hl_graph.DataAvailability.Celestia.{
  ShareProof, Remote, ShareDigestsProof, head_of, root_of, share_digest, prove_share, low_uint64,
}

-- The nodes of the other chain have 90 bytes each, and its hashes 32.
abbrev pub Nodes : List Text → Type 0
Nodes = All (λ s. length s ≡ 90)

abbrev pub Hashes : List Text → Type 0
Hashes = All (λ s. length s ≡ 32)

-- A proof for the contract, read as one of the other chain.
abbrev pub to_nmt : NamespaceMerkleMultiproof → NmtProof
to_nmt q = record { start = q.begin_key; end = q.end_key; nodes = map node_bytes q.side_nodes }

abbrev pub to_merkle : BinaryMerkleProof → MerkleProof
to_merkle q = record { total = q.num_leaves; index = q.key; aunts = q.side_nodes }

abbrev pub IsMultiproof : NamespaceMerkleMultiproof → Type 0
IsMultiproof q = All IsNode q.side_nodes

-- What the proof for the contract holds: read back, what the other chain gives, in the fields of the
-- contract; and for each share the digest of a leaf, over its namespace and its bytes.
pub record Carries (sha256 : Text → Text) (p : ShareProof) (nonce height : ℕ) (hash : Text)
    (root_proof : MerkleProof) (d : ShareDigestsProof) : Type 0 where
  pub digests :
      d.digests ≡ map (λ s. sha256 (0 ∷ p.namespace_version ∷ (p.namespace_id ++ s))) p.shares
  pub share_proofs : map to_nmt d.share_proofs ≡ p.share_proofs
  pub share_nodes : All IsMultiproof d.share_proofs
  pub version : d.namespace.version ≡ p.namespace_version
  pub id : d.namespace.id ≡ p.namespace_id
  pub row_roots : map node_bytes d.row_roots ≡ p.row_roots
  pub row_nodes : All IsNode d.row_roots
  pub row_proofs : map to_merkle d.row_proofs ≡ p.row_proofs
  pub nonce_of : d.attestation_proof.tuple_root_nonce ≡ pos nonce
  pub height_of : d.attestation_proof.height ≡ pos height
  pub data_root : d.attestation_proof.data_root ≡ hash
  pub root_proof_of : to_merkle d.attestation_proof.proof ≡ root_proof

each-back :
    {A B : Type 0} (f : A → Result B) (back : B → A) (P : A → Type 0) (Q : B → Type 0)
    → ((a : A) → P a → (b : B) × (f a ≡ ok b) × Q b × (back b ≡ a))
    → (xs : List A) → All P xs
    → (ys : List B) × (each f xs ≡ ok ys) × All Q ys × (map back ys ≡ xs)
unfolding each
each-back f back P Q step [] h = ([], refl, tt, refl)
each-back f back P Q step (a ∷ rest) (h, hs) =
    let (b, e, q, same) = step a h in
    let (bs, es, qs, sames) = each-back f back P Q step rest hs in
    (b ∷ bs, rw (e, es) refl, (q, qs), rw (same, sames) refl)

Nodes-back :
    (ss : List Text)
    → Nodes ss
    → (ns : List NamespaceNode) × (each to_namespace_node ss ≡ ok ns)
      × All IsNode ns
      × (map node_bytes ns ≡ ss)
Nodes-back =
    each-back to_namespace_node node_bytes (λ s. length s ≡ 90) IsNode
      λ s h.
        let (n, e, shaped, bytes) = to_namespace_node-IsNode s (omega (arith, h)) in
        (n, e, shaped, bytes h)

multiproofs-back :
    (ps : List NmtProof)
    → All (λ p. Nodes p.nodes) ps
    → (qs : List NamespaceMerkleMultiproof) × (to_namespace_merkle_multi_proofs ps ≡ ok qs)
      × All IsMultiproof qs
      × (map to_nmt qs ≡ ps)
unfolding to_namespace_merkle_multi_proofs to_namespace_merkle_multi_proof
multiproofs-back =
    each-back to_namespace_merkle_multi_proof to_nmt (λ p. Nodes p.nodes) IsMultiproof
      λ p h.
        let (ns, e, shaped, bytes) = Nodes-back p.nodes h in
        (
          record { begin_key = p.start; end_key = p.end; side_nodes = ns },
          rw e refl,
          shaped,
          ap (λ l. record p { nodes = l }) bytes,
        )

map-back :
    {A B : Type 0} (f : A → B) (back : B → A) (P : A → Type 0)
    → ((a : A) → P a → back (f a) ≡ a)
    → (xs : List A) → All P xs
    → map back (map f xs) ≡ xs
map-back f back P step [] h = refl
map-back f back P step (a ∷ rest) (h, hs) = rw (step a h, map-back f back P step rest hs) refl

Hashes-copied : (ss : List Text) → Hashes ss → map (copy_into 32) ss ≡ ss
Hashes-copied [] h = refl
Hashes-copied (s ∷ rest) (h, hs) =
    let e : copy_into 32 s ≡ s = copy_into_all 32 s h in rw (e, Hashes-copied rest hs) refl

to_merkle-to_row_proof : (p : MerkleProof) → Hashes p.aunts → to_merkle (to_row_proof p) ≡ p
unfolding to_row_proof
to_merkle-to_row_proof p h = ap (λ l. record p { aunts = l }) (Hashes-copied p.aunts h)

to_int64-pos : (n : ℕ) → n < 2 ^ 63 → to_int64 n ≡ pos n
to_int64-pos n h = let t : ltb n (2 ^ 63) ≡ true = ground arith in rw t refl

module _ ⦃x : External⦄ (remote : Remote) where
  -- If the nodes answer with a data root of 32 bytes, an inclusion proof, and a share proof that has a
  -- proof, if their nodes have 90 bytes each and their hashes 32, and the namespace has a version below
  -- 256 and an identifier of 28 bytes, and the height and the nonce are below 2^63, then `GetShareProof`
  -- returns for the commitment that it has found the data root and a proof that holds, in the fields of
  -- the contract, what the nodes give: read back, every node of the share proofs and every row root has
  -- the bytes that it came with, cut where two namespaces of 29 bytes and a digest of 32 bytes stand; the
  -- row proofs and the inclusion proof have their hashes, index and total; the nonce and the height stand
  -- beside the data root; and for each share there is, in order, the hash of a leaf with its namespace
  -- and its bytes.
  pub prove_share-Carries :
      (height start end : ℕ) (commitment : DataCommitment) (hash : Text) (root_proof : MerkleProof)
      (p : ShareProof) (first : NmtProof) (rest : List NmtProof)
      → remote.data_hash (to_int64 height) ≡ ok hash
      → remote.data_root_inclusion_proof height commitment.start_block commitment.end_block
        ≡ ok root_proof
      → remote.prove_shares height start end ≡ ok p
      → length hash ≡ 32
      → p.share_proofs ≡ first ∷ rest
      → All (λ q. Nodes q.nodes) p.share_proofs
      → Nodes p.row_roots
      → All (λ q. Hashes q.aunts) p.row_proofs
      → Hashes root_proof.aunts
      → length p.namespace_id ≡ 28
      → p.namespace_version < 256
      → height < 2 ^ 63
      → commitment.proof_nonce < 2 ^ 63
      → (d : ShareDigestsProof) × (prove_share remote height start end commitment ≡ ok (d, hash))
        × Carries remote.sha256 p commitment.proof_nonce height hash root_proof d
  unfolding prove_share head_of root_of to_row_roots
  prove_share-Carries height start end commitment hash root_proof p first rest eh er ep long
        some_proof nodes roots rows aunts id version low_height low_nonce =
      let (proofs, e, proof_nodes, proofs_back) = multiproofs-back p.share_proofs nodes in
      let (row_roots, f, root_nodes, roots_back) = Nodes-back p.row_roots roots in
      let whole : take 32 hash ≡ hash = take_all 32 hash (omega (arith, long)) in
      let small : p.namespace_version % 256 ≡ p.namespace_version = omega arith in
      let nonce : low_uint64 commitment.proof_nonce ≡ commitment.proof_nonce = omega arith in
      let d : ShareDigestsProof = record {
        digests = map (share_digest remote p) p.shares;
        share_proofs = proofs;
        namespace = namespace p.namespace_id (p.namespace_version % 256);
        row_roots = row_roots;
        row_proofs = to_row_proofs p.row_proofs;
        attestation_proof =
            to_attestation_proof (low_uint64 commitment.proof_nonce) height hash root_proof;
      } in
      (
        d,
        rw (eh, er, ep, slice-ok 0 32 hash (omega (arith, long)), whole, e, f, some_proof) refl,
        record {
          digests =
              unfold share_digest in
              ap (λ v. map (λ s. remote.sha256 (0 ∷ v ∷ (p.namespace_id ++ s))) p.shares) small;
          share_proofs = proofs_back;
          share_nodes = proof_nodes;
          version = unfold namespace in small;
          id = unfold namespace in copy_into_all 28 p.namespace_id id;
          row_roots = roots_back;
          row_nodes = root_nodes;
          row_proofs =
              unfold to_row_proofs in
              map-back to_row_proof to_merkle (λ q. Hashes q.aunts) to_merkle-to_row_proof
                p.row_proofs rows;
          nonce_of =
              unfold to_attestation_proof in
              ap to_int64 nonce ∙ to_int64-pos commitment.proof_nonce low_nonce;
          height_of = unfold to_attestation_proof in to_int64-pos height low_height;
          data_root = unfold to_attestation_proof in refl;
          root_proof_of = unfold to_attestation_proof in to_merkle-to_row_proof root_proof aunts;
        },
      )
