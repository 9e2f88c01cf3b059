-- ===== src/Tests/Fetches.antt =====
-- Runs of the search for a commitment, of the conversions and of the fetches, at a small remote chain.
use cartesi_rollups_hl_graph.Base.{
  ◌≡◌, refl, some, List, [], ◌∷◌, ◌++◌, Text, select, pos, Result, ok, err, arith, copy_into,
  length-copy_into, canceled, bad_request, Error, ◌+◌, ◌^◌, ltb, ℕ, ◌<◌, Bool, true, false,
  slice_from, codes, ◌-◌,
}
use cartesi_rollups_hl_graph.DataAvailability.Commitments.{
  DataCommitment, Filter, get_data_commitment,
}
use cartesi_rollups_hl_graph.DataAvailability.Scan.{in_window, Found, get_data_commitment-Found}
use cartesi_rollups_hl_graph.DataAvailability.Returns.{get_data_commitment-returns}
use cartesi_rollups_hl_graph.DataAvailability.Wrap.{get_data_commitment_short}
use cartesi_rollups_hl_graph.DataAvailability.Convert.{NmtProof, MerkleProof}
use cartesi_rollups_hl_graph.DataAvailability.Carries.{Carries, prove_share-Carries}
use cartesi_rollups_hl_graph.DataAvailability.Celestia.{
  ShareProof, Remote, ShareDigestsProof, prove_share, parse_params, fetch_from_tendermint,
}
use cartesi_rollups_hl_graph.DataAvailability.Shares.{share_of}
use cartesi_rollups_hl_graph.Http.{json, respond}
use cartesi_rollups_hl_graph.Http.Gio.{gio}
use cartesi_rollups_hl_graph.Http.Fetches.{ask, Answers, gio-share}
use cartesi_rollups_hl_graph.Tests.World.{world}
use cartesi_rollups_hl_graph.Tests.Http.{idle_model}

abbrev commitment : DataCommitment
commitment = record {
  proof_nonce = 1;
  start_block = 3;
  end_block = 8;
  data_commitment = [];
  block = 15000;
}

abbrev filter_of : List DataCommitment → Filter
filter_of events start end = ok (select (in_window start end) events)

get_data_commitment-Found_example :
    (r : Result DataCommitment) × (get_data_commitment
        (ok (filter_of (commitment ∷ [])))
        (ok 20000)
        (pos 5)
        10000
        2
      ≡ some r)
    × Found (pos 5) (commitment ∷ []) (20000 - 10000) 20000 r
get_data_commitment-Found_example =
    get_data_commitment-Found (pos 5) (commitment ∷ []) (filter_of (commitment ∷ [])) 20000 10000 1
      (λ start end h k. refl) (omega arith) (omega arith) (omega arith) (omega arith)

get_data_commitment-returns_example :
    (r : Result DataCommitment) × (get_data_commitment
        (ok (λ start end. err canceled))
        (ok 20000)
        (pos 5)
        10000
        2
      ≡ some r)
get_data_commitment-returns_example =
    get_data_commitment-returns (pos 5) (λ start end. err canceled) 20000 10000 1 (omega arith)
      (omega arith) (omega arith)

abbrev early : DataCommitment
early = record commitment { block = 100 }

-- A node that refuses a window that begins behind its end.
strict : Bool → Result (List DataCommitment) → Result (List DataCommitment)
strict true events = err bad_request
strict false events = events

abbrev strict_filter : Filter
strict_filter start end = strict (ltb end start) (filter_of (early ∷ []) start end)

strict_filter-refuses :
    (start end : ℕ) → end < start → (e : Error) × (strict_filter start end ≡ err e)
unfolding strict
strict_filter-refuses start end h =
    let t : ltb end start ≡ true = ground arith in (bad_request, rw t refl)

get_data_commitment_short_example :
    (e : Error) × (strict_filter (2 ^ 64 + 5000 - 10000) 5000 ≡ err e)
    × (get_data_commitment (ok strict_filter) (ok 5000) (pos 5) 10000000 1001 ≡ some (err e))
get_data_commitment_short_example =
    get_data_commitment_short (pos 5) strict_filter strict_filter-refuses 5000 10000000 1000
      (omega arith) (omega arith) (omega arith)

abbrev bytes : Text
bytes = copy_into 90 (1 ∷ 2 ∷ 3 ∷ [])

abbrev root_proof : MerkleProof
root_proof = record { total = pos 4; index = pos 1; aunts = copy_into 32 (1 ∷ []) ∷ [] }

abbrev node_proof : NmtProof
node_proof = record { start = pos 0; end = pos 1; nodes = bytes ∷ [] }

abbrev blob : Text
blob = 11 ∷ 12 ∷ []

abbrev namespace_bytes : Text
namespace_bytes = copy_into 29 (9 ∷ [])

abbrev answer_with : Text → ShareProof
answer_with share = record {
  shares = share ∷ [];
  share_proofs = node_proof ∷ [];
  namespace_id = copy_into 28 (9 ∷ []);
  namespace_version = 0;
  row_roots = bytes ∷ [];
  row_proofs = root_proof ∷ [];
}

abbrev remote_with : Result (Unit {0}) → Text → Remote
remote_with reached share = record {
  unpack_request = λ s. some (record { namespace = copy_into 29 []; height = 5; start = 0 });
  connections = ok tt;
  trpc = reached;
  contract = ok (filter_of (commitment ∷ []));
  block_number = ok 20000;
  data_hash = λ h. ok (copy_into 32 (5 ∷ []));
  data_root_inclusion_proof = λ h s e. ok root_proof;
  prove_shares = λ h s e. ok (answer_with share);
  sha256 = copy_into 32;
  new_blob_namespace = λ s. ok s;
  get_all = λ h s. ok [];
  auth_token = [];
  url = [];
}

abbrev whole : Text
whole = share_of namespace_bytes 1 2 (blob ++ 0 ∷ [])

prove_share-Carries_example :
    (d : ShareDigestsProof) × (prove_share (remote_with (ok tt) whole) 5 0 1 commitment
      ≡ ok (d, copy_into 32 (5 ∷ [])))
    × Carries (copy_into 32) (answer_with whole) 1 5 (copy_into 32 (5 ∷ [])) root_proof d
prove_share-Carries_example =
    let nodes = length-copy_into 90 (1 ∷ 2 ∷ 3 ∷ []) in
    let aunts = length-copy_into 32 (1 ∷ []) in
    prove_share-Carries (remote_with (ok tt) whole) 5 0 1 commitment (copy_into 32 (5 ∷ []))
      root_proof (answer_with whole) node_proof [] refl refl refl (length-copy_into 32 (5 ∷ []))
      refl ((nodes, tt), tt) (nodes, tt) ((aunts, tt), tt) (aunts, tt)
      (length-copy_into 28 (9 ∷ [])) (omega arith) (omega arith) (omega arith)

answers : (share : Text) → Answers (remote_with (ok tt) share) (codes "0x") share
unfolding parse_params slice_from world
answers share = record {
  params = record { namespace = copy_into 29 []; height = 5; start = 0 };
  proof = answer_with share;
  more = [];
  asked = refl;
  reached = refl;
  proved = refl;
  first = refl;
}

gio-share_example :
    gio (λ s. err canceled) (remote_with (ok tt) whole) (ask 714 (codes "0x")) idle_model
    ≡ (ok (respond 200 (json (record { code = 42; «data» = blob }))), idle_model)
unfolding world
gio-share_example =
    gio-share (λ s. err canceled) (remote_with (ok tt) whole) (codes "0x") idle_model
      namespace_bytes blob (0 ∷ []) 1 (length-copy_into 29 (9 ∷ [])) (omega arith) (answers whole)

abbrev cut : Text
cut = share_of namespace_bytes 1 1000 blob

unreached : fetch_from_tendermint (remote_with (err canceled) whole) (codes "0x") ≡ err canceled
unfolding fetch_from_tendermint parse_params slice_from world
unreached = refl
