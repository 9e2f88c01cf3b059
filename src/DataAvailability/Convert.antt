-- ===== src/DataAvailability/Convert.antt =====
-- internal/dataavailability/convert.go: the proofs of the other chain as the records that the contract
-- takes. The arrays of the records are texts, whose lengths DataAvailability/Carries proves.
use cartesi_rollups_hl_graph.Base.{
  ℕ, List, [], ◌∷◌, map, Text, slice, slice_from, copy_into, ℤ, Result, ok, err, bind, panic,
}
use cartesi_rollups_hl_graph.DataAvailability.Commitments.{to_int64}

pub record Namespace : Type 0 where
  pub version : ℕ
  pub id : Text

pub record NamespaceNode : Type 0 where
  pub min : Namespace
  pub max : Namespace
  pub digest : Text

pub record NamespaceMerkleMultiproof : Type 0 where
  pub begin_key : ℤ
  pub end_key : ℤ
  pub side_nodes : List NamespaceNode

pub record BinaryMerkleProof : Type 0 where
  pub side_nodes : List Text
  pub key : ℤ
  pub num_leaves : ℤ

pub record AttestationProof : Type 0 where
  pub tuple_root_nonce : ℤ
  pub height : ℤ
  pub data_root : Text
  pub proof : BinaryMerkleProof

-- What the code reads of the proofs of Tendermint: `tmproto.NMTProof` and `merkle.Proof`.
pub record NmtProof : Type 0 where
  pub start : ℤ
  pub end : ℤ
  pub nodes : List Text

pub record MerkleProof : Type 0 where
  pub total : ℤ
  pub index : ℤ
  pub aunts : List Text

-- The loop that converts each element, and panics with the first that does.
unfoldable pub each : {A B : Type 0} → (A → Result B) → List A → Result (List B)
each f [] = ok []
each f (a ∷ rest) = bind (f a) (λ b. bind (each f rest) (λ bs. ok (b ∷ bs)))

-- `s[0]`
unfoldable pub first_byte : Text → Result ℕ
first_byte [] = err panic
first_byte (c ∷ s) = ok c

unfoldable pub min_namespace : Text → Result Namespace
unfolding first_byte slice copy_into
min_namespace inner_node = bind (first_byte inner_node) λ version.
    bind (slice 1 29 inner_node) λ id. ok (record { version = version; id = copy_into 28 id })

unfoldable pub max_namespace : Text → Result Namespace
unfolding first_byte slice slice_from copy_into
max_namespace inner_node = bind (bind (slice_from 29 inner_node) first_byte) λ version.
    bind (slice 30 58 inner_node) λ id. ok (record { version = version; id = copy_into 28 id })

unfoldable pub to_namespace_node : Text → Result NamespaceNode
unfolding min_namespace max_namespace slice_from copy_into
to_namespace_node node = bind (min_namespace node) λ min. bind (max_namespace node) λ max.
    bind (slice_from 58 node)
      λ digest. ok (record { min = min; max = max; digest = copy_into 32 digest })

unfoldable pub to_namespace_merkle_multi_proof : NmtProof → Result NamespaceMerkleMultiproof
unfolding each to_namespace_node
to_namespace_merkle_multi_proof proof = bind (each to_namespace_node proof.nodes) λ side_nodes.
    ok (record { begin_key = proof.start; end_key = proof.end; side_nodes = side_nodes })

unfoldable pub to_namespace_merkle_multi_proofs :
    List NmtProof → Result (List NamespaceMerkleMultiproof)
unfolding each to_namespace_merkle_multi_proof
to_namespace_merkle_multi_proofs = each to_namespace_merkle_multi_proof

unfoldable pub namespace : Text → ℕ → Namespace
unfolding copy_into
namespace namespace_id version = record { version = version; id = copy_into 28 namespace_id }

unfoldable pub to_row_roots : List Text → Result (List NamespaceNode)
unfolding each to_namespace_node
to_row_roots = each to_namespace_node

unfoldable pub to_row_proof : MerkleProof → BinaryMerkleProof
unfolding copy_into
to_row_proof proof = record {
  side_nodes = map (copy_into 32) proof.aunts;
  key = proof.index;
  num_leaves = proof.total;
}

unfoldable pub to_row_proofs : List MerkleProof → List BinaryMerkleProof
unfolding to_row_proof
to_row_proofs = map to_row_proof

-- `big.NewInt(int64(n))` of the nonce and the height, which are of type uint64
unfoldable pub to_attestation_proof : ℕ → ℕ → Text → MerkleProof → AttestationProof
unfolding to_row_proof
to_attestation_proof nonce height block_data_root data_root_inclusion_proof = record {
  tuple_root_nonce = to_int64 nonce;
  height = to_int64 height;
  data_root = block_data_root;
  proof = to_row_proof data_root_inclusion_proof;
}
