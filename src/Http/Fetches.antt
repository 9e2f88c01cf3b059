-- ===== src/Http/Fetches.antt =====
-- internal/rollup/rollup.go with internal/dataavailability: what the application gets of a blob.
use cartesi_rollups_hl_graph.Base.{
  ℕ, ◌+◌, ◌<◌, ◌^◌, ◌%◌, ◌≡◌, refl, true, ◌||◌, List, ◌∷◌, ◌++◌, Text, codes, length, Error, ok,
  err, panic, arith, ◌≢◌, ap, none,
}
use cartesi_rollups_hl_graph.External.{External}
use cartesi_rollups_hl_graph.DataAvailability.Celestia.{
  GioReqParams, ShareProof, Remote, low_uint64, parse_params, fetch_from_tendermint, fetch_celestia,
  returned, is_empty, Fetched, refuse,
}
use cartesi_rollups_hl_graph.DataAvailability.Shares.{
  share_of, share_data-short, share_data-long, fetch_from_tendermint-share,
}
use cartesi_rollups_hl_graph.Http.{
  Request, json, respond, has_prefix, check_content_type, with_body,
}
use cartesi_rollups_hl_graph.Http.Gio.{
  GioRequest, Get, gio, fetcher, fetch_syscoin, answer, answer_error, syscoin_answer,
}
use cartesi_rollups_hl_graph.Rollup.State.{NonodoModel}

-- A well-formed request for a blob of a domain.
abbrev pub ask : ℕ → Text → Request GioRequest
ask domain id = record {
  content_type = codes "application/json";
  body = ok (record { domain = domain; id = id });
}

-- What the node answers to the request `id` for a share.
pub record Answers ⦃x : External⦄ (remote : Remote) (id : Text) (share : Text) : Type 0 where
  pub params : GioReqParams
  pub proof : ShareProof
  pub more : List Text
  pub asked : parse_params remote id ≡ ok params
  pub reached : remote.trpc ≡ ok tt
  pub proved :
      remote.prove_shares
        (low_uint64 params.height)
        (low_uint64 params.start)
        ((low_uint64 params.start + 1) % 2 ^ 64)
      ≡ ok proof
  pub first : proof.shares ≡ share ∷ more

returned-error :
    (d : Error) (found : Text → Fetched) (failed : Error → Fetched)
    → d ≢ panic
    → returned (err d) found failed ≡ failed d
unfolding returned
returned-error panic found failed h = absurd (h refl)
returned-error _ found failed h = refl

fetch_syscoin-error :
    (get : Get) (id : Text) (e : Error)
    → get (codes "https://poda.syscoin.org/vh/" ++ id) ≡ err e
    → fetch_syscoin get id ≡ refuse 500 none
unfolding fetch_syscoin
fetch_syscoin-error get id e h = ap syscoin_answer h

module _ ⦃x : External⦄ (get : Get) (remote : Remote) (id : Text) (m : NonodoModel) where
  -- If the node answers with a first share that holds the whole blob, behind a namespace of 29 bytes, a
  -- byte and the length of the blob in four bytes, the application gets 200 with the code 42 and the
  -- blob in hexadecimal digits, whatever stands behind it in the share.
  pub gio-share :
      (ns blob padding : Text) (info : ℕ)
      → length ns ≡ 29
      → 34 + length blob < 2 ^ 32
      → Answers remote id (share_of ns info (length blob) (blob ++ padding))
      → gio get remote (ask 714 id) m
        ≡ (ok (respond 200 (json (record { code = 42; «data» = x.bytes_to_hex blob }))), m)
  unfolding gio with_body check_content_type has_prefix fetcher fetch_celestia returned answer
  gio-share ns blob padding info full small a =
      rw
        (
          fetch_from_tendermint-share remote id a.params a.proof _ a.more a.asked a.reached a.proved
              a.first ns info (length blob) (blob ++ padding) full (omega arith) refl,
          share_data-short ns info (length blob) blob padding full small refl,
        )
        refl

  -- The request is for one share only: if the length that the first share states is greater than what
  -- the share holds behind it, as for a blob that takes several shares, the handler panics.
  pub gio-long :
      (ns part : Text) (info n : ℕ)
      → length ns ≡ 29
      → n < 2 ^ 32
      → length part < n
      → Answers remote id (share_of ns info n part)
      → gio get remote (ask 714 id) m ≡ (err panic, m)
  unfolding gio with_body check_content_type has_prefix fetcher fetch_celestia returned answer
  gio-long ns part info n full small long a =
      rw
        (
          fetch_from_tendermint-share remote id a.params a.proof _ a.more a.asked a.reached a.proved
              a.first ns info n part full small refl,
          share_data-long ns info n part full small long,
        )
        refl

  -- The handler of /gio panics where it means to answer 500: for Syscoin, if the request fails; and for
  -- Celestia, if the first fetch returns an error (and does not panic) while the token or the address of
  -- the second is not configured. The error has no text, and the handler asks for it.
  pub gio_without_text :
      (e d : Error)
      → get (codes "https://poda.syscoin.org/vh/" ++ id) ≡ err e
      → fetch_from_tendermint remote id ≡ err d
      → d ≢ panic
      → is_empty remote.auth_token || is_empty remote.url ≡ true
      → (gio get remote (ask 5700 id) m ≡ (err panic, m))
        × (gio get remote (ask 714 id) m ≡ (err panic, m))
  unfolding gio with_body check_content_type has_prefix fetcher fetch_syscoin fetch_celestia answer
      answer_error
  gio_without_text e d failed missing other unset =
      (rw failed refl, rw (missing, returned-error d _ _ other, unset) refl)
