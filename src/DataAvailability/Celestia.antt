-- ===== src/DataAvailability/Celestia.antt =====
-- internal/dataavailability/celestia.go: what is fetched from the other chain, and the proof that it
-- stands there. A `Remote` is what the nodes, the environment, the ABI decoder of go-ethereum and
-- SHA-256 give.
use cartesi_rollups_hl_graph.Base.{
  String, ℕ, ◌+◌, ◌%◌, ◌^◌, Bool, true, false, ◌||◌, Option, none, some, List, [], ◌∷◌, ◌++◌, map,
  ltb, Text, slice, slice_from, spelled, if◌then◌else◌, ℤ, Error, Result, ok, err, bind,
  bad_request, panic,
}
use cartesi_rollups_hl_graph.External.{External}
use cartesi_rollups_hl_graph.DataAvailability.Commitments.{
  DataCommitment, Filter, to_int64, get_data_commitment,
}
use cartesi_rollups_hl_graph.DataAvailability.Convert.{
  Namespace, NamespaceNode, NamespaceMerkleMultiproof, BinaryMerkleProof, AttestationProof,
  NmtProof, MerkleProof, to_namespace_merkle_multi_proofs, to_row_roots, to_row_proofs,
  to_attestation_proof, namespace,
}

-- The namespace has 29 bytes; `End` is never set.
pub record GioReqParams : Type 0 where
  pub namespace : Text
  pub height : ℕ
  pub start : ℕ

-- What the code reads of the share proof of Tendermint.
pub record ShareProof : Type 0 where
  pub shares : List Text
  pub share_proofs : List NmtProof
  pub namespace_id : Text
  pub namespace_version : ℕ
  pub row_roots : List Text
  pub row_proofs : List MerkleProof

pub record Remote : Type 0 where
  -- the values of a `CelestiaRequest(...)`
  pub unpack_request : Text → Option GioReqParams
  pub connections : Result (Unit {0})
  pub trpc : Result (Unit {0})
  pub contract : Result Filter
  pub block_number : Result ℕ
  pub data_hash : ℤ → Result Text
  pub data_root_inclusion_proof : ℕ → ℕ → ℕ → Result MerkleProof
  pub prove_shares : ℕ → ℕ → ℕ → Result ShareProof
  pub sha256 : Text → Text
  -- `NewBlobNamespaceV0`, and `GetAll` of a client: of each blob, whether it has a JSON text, and its data
  pub new_blob_namespace : Text → Result Text
  pub get_all : ℕ → Text → Result (List (Result (Unit {0}) × Text))
  pub auth_token : Text
  pub url : Text

-- `ShareDigestsProof`
pub record ShareDigestsProof : Type 0 where
  pub digests : List Text
  pub share_proofs : List NamespaceMerkleMultiproof
  pub namespace : Namespace
  pub row_roots : List NamespaceNode
  pub row_proofs : List BinaryMerkleProof
  pub attestation_proof : AttestationProof

-- The text of an `HttpCustomError`, which may be nil, is a literal or the text of an error.
pub data Message : Type 0 where
  literal : String → Message
  error_text : Error → Message

pub record HttpCustomError : Type 0 where
  pub status : ℕ
  pub body : Option Message

-- What a `Fetch` returns, if it does not panic.
pub data Fetched : Type 0 where
  fetched : Text → Fetched
  refused : HttpCustomError → Fetched
  panicked : Fetched

abbrev pub refuse : ℕ → Option Message → Fetched
refuse status body = refused (record { status = status; body = body })

-- `big.Int.Uint64`
abbrev pub low_uint64 : ℕ → ℕ
low_uint64 n = n % 2 ^ 64

-- `s[0]` of a slice
unfoldable pub head_of : {A : Type 0} → List A → Result A
head_of [] = err panic
head_of (a ∷ rest) = ok a

-- `data[34 : 34+length]`, whose sum is of type uint32
unfoldable pub share_data : Text → ℕ → Result Text
share_data share n =
    let end = (34 + n) % 2 ^ 32 in if ltb end 34 then err panic else slice 34 end share

-- The result of a call that may panic.
unfoldable pub returned : Result Text → (Text → Fetched) → (Error → Fetched) → Fetched
returned (ok s) found failed = found s
returned (err panic) found failed = panicked
returned (err e) found failed = failed e

abbrev pub is_empty : Text → Bool
is_empty [] = true
is_empty (c ∷ s) = false

module _ ⦃x : External⦄ (remote : Remote) where
  open remote use {
    unpack_request, connections, trpc, contract, block_number, data_hash, data_root_inclusion_proof,
    prove_shares, sha256, new_blob_namespace, get_all, auth_token, url,
  }

  unpacked : Option GioReqParams → Result GioReqParams
  unpacked none = err bad_request
  unpacked (some params) = ok params

  -- parseParams
  unfoldable pub parse_params : Text → Result GioReqParams
  unfolding unpacked slice_from
  parse_params id = bind (slice_from 2 id) (λ s. unpacked (unpack_request (x.hex_to_bytes s)))

  -- GetBlob
  unfoldable pub get_blob : Text → Result Text
  unfolding parse_params slice_from head_of
  get_blob id = bind (parse_params id) λ params. bind (slice_from 22 params.namespace) λ version_0.
      bind (new_blob_namespace version_0) λ ns.
        bind (get_all (low_uint64 params.height) ns)
          λ blobs. bind (head_of blobs) λ blob. bind (blob.0) (λ json. ok (blob.1))

  -- The digest of a share, for the whole of its data.
  unfoldable pub share_digest : ShareProof → Text → Text
  share_digest p share = sha256 (0 ∷ p.namespace_version % 256 ∷ (p.namespace_id ++ share))

  -- The conversion `[32]byte(hash)`.
  unfoldable pub root_of : Text → Result Text
  root_of hash = slice 0 32 hash

  abbrev then_find :
      {A : Type 0}
      → Option (Result DataCommitment)
      → (DataCommitment → Result A)
      → Option (Result A)
  then_find none f = none
  then_find (some r) f = some (bind r f)

  -- The statements of GetShareProof behind the search for the commitment.
  unfoldable pub prove_share : ℕ → ℕ → ℕ → DataCommitment → Result (ShareDigestsProof × Text)
  unfolding head_of root_of share_digest to_namespace_merkle_multi_proofs to_row_roots to_row_proofs
      to_attestation_proof namespace
  prove_share height start end commitment = bind (data_hash (to_int64 height)) λ hash.
      bind (data_root_inclusion_proof height commitment.start_block commitment.end_block)
        λ root_proof. bind (prove_shares height start end) λ p. bind (root_of hash) λ root.
          bind (head_of p.share_proofs) λ logged.
            bind (to_namespace_merkle_multi_proofs p.share_proofs) λ share_proofs.
              bind (to_row_roots p.row_roots) λ row_roots. ok (
                record {
                  digests = map (share_digest p) p.shares;
                  share_proofs = share_proofs;
                  namespace = namespace p.namespace_id (p.namespace_version % 256);
                  row_roots = row_roots;
                  row_proofs = to_row_proofs p.row_proofs;
                  attestation_proof =
                      to_attestation_proof (low_uint64 commitment.proof_nonce) height root
                        root_proof;
                },
                root,
              )

  -- GetShareProof, with fuel for the search.
  unfoldable pub get_share_proof : ℕ → ℕ → ℕ → ℕ → Option (Result (ShareDigestsProof × Text))
  unfolding prove_share
  get_share_proof height start end fuel = elim connections [
    | err e ↦ some (err e)
    | ok u ↦
        then_find (get_data_commitment contract block_number (to_int64 height) 10000000 fuel)
          (prove_share height start end)
  ]

  -- FetchFromTendermint
  unfoldable pub fetch_from_tendermint : Text → Result Text
  fetch_from_tendermint id = bind (parse_params id) λ params. bind trpc λ u.
      let start = low_uint64 params.start in
      bind (prove_shares (low_uint64 params.height) start ((start + 1) % 2 ^ 64)) λ p.
        bind (head_of p.shares) λ share. bind (slice 0 29 share) λ logged.
          bind (slice 30 34 share)
            λ size. bind (share_data share (spelled 0 size)) λ blob. ok (x.bytes_to_hex blob)

  -- `CelestiaClient.Fetch`
  unfoldable pub fetch_celestia : Text → Fetched
  unfolding returned fetch_from_tendermint get_blob
  fetch_celestia id = returned (fetch_from_tendermint id) fetched λ e.
      if is_empty auth_token || is_empty url
      then refuse 500 none
      else returned (get_blob id) (λ blob. fetched (x.bytes_to_hex blob))
          (λ e. refuse 400 (some (error_text e)))
