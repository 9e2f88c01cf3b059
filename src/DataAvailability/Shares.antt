-- ===== src/DataAvailability/Shares.antt =====
-- internal/dataavailability/celestia.go: what is read out of a share. The first share of a blob holds
-- its namespace of 29 bytes, a byte of information, the length of the blob in four bytes, and then the
-- blob, as far as the share reaches.
use cartesi_rollups_hl_graph.Base.{
  ℕ, ◌+◌, ◌-◌, ◌<◌, ◌^◌, ◌≡◌, refl, sym, ap, ◌∙◌, List, ◌∷◌, ◌++◌, Text, length, drop, ltb, slice,
  slice-ok, spell, spelled-spell, length-spell, length-append, take-append, drop-append, drop-drop,
  ok, err, bind, panic, arith, ◌%◌, false,
}
use cartesi_rollups_hl_graph.External.{External}
use cartesi_rollups_hl_graph.DataAvailability.Celestia.{
  GioReqParams, ShareProof, Remote, low_uint64, share_data, parse_params, fetch_from_tendermint,
  head_of,
}

abbrev pub share_of : Text → ℕ → ℕ → Text → Text
share_of ns info n part = ns ++ info ∷ (spell 4 n ++ part)

module _ (ns : Text) (info n : ℕ) (part : Text) (full : length ns ≡ 29) (small : n < 2 ^ 32) where
  length-share_of : length (share_of ns info n part) ≡ 34 + length part
  length-share_of = omega (
    arith,
    full,
    length-append ns (info ∷ (spell 4 n ++ part)),
    length-append (spell 4 n) part,
    length-spell 4 n,
  )

  behind_namespace : drop 30 (share_of ns info n part) ≡ spell 4 n ++ part
  behind_namespace =
      sym (drop-drop 29 1 (share_of ns info n part))
      ∙ ap (λ l. drop 1 l) (drop-append 29 ns (info ∷ (spell 4 n ++ part)) full)

  read_size : slice 30 34 (share_of ns info n part) ≡ ok (spell 4 n)
  read_size =
      rw
        (
          slice-ok 30 34 (share_of ns info n part) (omega (arith, length-share_of)),
          behind_namespace,
        )
        (ap ok (take-append 4 (spell 4 n) part (length-spell 4 n)))

module _ ⦃x : External⦄ (remote : Remote) (id : Text) (params : GioReqParams) (p : ShareProof)
    (share : Text) (more : List Text) (asked : parse_params remote id ≡ ok params)
    (reached : remote.trpc ≡ ok tt)
    (proved : remote.prove_shares
        (low_uint64 params.height)
        (low_uint64 params.start)
        ((low_uint64 params.start + 1) % 2 ^ 64)
      ≡ ok p)
    (first : p.shares ≡ share ∷ more) where
  -- The blob is what `share_data` reads.
  pub fetch_from_tendermint-share :
      (ns : Text) (info n : ℕ) (part : Text)
      → length ns ≡ 29
      → n < 2 ^ 32
      → share ≡ share_of ns info n part
      → fetch_from_tendermint remote id
        ≡ bind (share_data share n) (λ blob. ok (x.bytes_to_hex blob))
  unfolding fetch_from_tendermint head_of
  fetch_from_tendermint-share ns info n part full small e =
      rw
        (
          asked,
          reached,
          proved,
          first,
          e,
          slice-ok 0 29 (share_of ns info n part)
              (omega (arith, length-share_of ns info n part full small)),
          read_size ns info n part full small,
          spelled-spell 4 n small,
        )
        refl

pub share_data-short :
    (ns : Text) (info n : ℕ) (blob padding : Text)
    → length ns ≡ 29
    → 34 + n < 2 ^ 32
    → length blob ≡ n
    → share_data (share_of ns info n (blob ++ padding)) n ≡ ok blob
unfolding share_data
share_data-short ns info n blob padding full small size =
    let share : Text = share_of ns info n (blob ++ padding) in
    let low : n < 2 ^ 32 = omega arith in
    let end : (34 + n) % 2 ^ 32 ≡ 34 + n = omega arith in
    let above : ltb (34 + n) 34 ≡ false = ground arith in
    let span : 34 + n - 34 ≡ n = omega arith in
    let rest : drop 34 share ≡ blob ++ padding =
      sym (drop-drop 30 4 share)
      ∙ ap (λ l. drop 4 l) (behind_namespace ns info n (blob ++ padding) full low)
      ∙ drop-append 4 (spell 4 n) (blob ++ padding) (length-spell 4 n) in
    rw
      (
        end,
        above,
        slice-ok 34 (34 + n) share (
            omega (
              arith,
              length-share_of ns info n (blob ++ padding) full low,
              length-append blob padding,
              size,
            )),
        span,
        rest,
      )
      (ap ok (take-append n blob padding size))

pub share_data-long :
    (ns : Text) (info n : ℕ) (part : Text)
    → length ns ≡ 29
    → n < 2 ^ 32
    → length part < n
    → share_data (share_of ns info n part) n ≡ err panic
unfolding share_data slice
share_data-long ns info n part full small long =
    ground (arith, length-share_of ns info n part full small)
