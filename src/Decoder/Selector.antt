-- ===== src/Decoder/Selector.antt =====
-- decoder.go and adapter.go: what the two handlers of outputs make of the payloads that the conversion to
-- v2 writes, `0x` and a selector before the content.
use cartesi_rollups_hl_graph.Base.{
  slice-ok, slice_from-ok, [], ℕ, ◌≡◌, refl, false, some, ◌∷◌, ◌++◌, Text, codes, text_eq, slice,
  slice_from, ok, ◌>>◌, pure, arith,
}
use cartesi_rollups_hl_graph.External.{Address, External, EvmAdvance}
use cartesi_rollups_hl_graph.Data.{ProcessOutputData, ConvenienceVoucher, ConvenienceNotice}
use cartesi_rollups_hl_graph.Store.{Db, Context}
use cartesi_rollups_hl_graph.Service
use cartesi_rollups_hl_graph.Decoder.{
  handle_output, handle_output_v2, store_voucher, store_notice, remove_selector,
  get_converted_input, convert_voucher_payload_to_v2, voucher_selector,
  convert_notice_payload_to_v2, notice_selector,
}

abbrev pub voucher_with : Address → Text → ℕ → ℕ → ConvenienceVoucher
voucher_with destination s i o = record {
  destination = destination;
  payload = codes "0x" ++ s;
  input_index = i;
  output_index = o;
  executed = false;
  app_contract = 0;
}

abbrev pub notice_with : Text → ℕ → ℕ → Address → ConvenienceNotice
notice_with s i o app = record {
  payload = codes "0x" ++ s;
  input_index = i;
  output_index = o;
  app_contract = app;
}

abbrev pub marked : Text → Text → ℕ → ℕ → ProcessOutputData
marked destination s i o = record {
  output_index = o;
  input_index = i;
  payload = convert_voucher_payload_to_v2 s;
  destination = destination;
}

module _ (s : Text) where
  voucher-content : slice_from 10 (convert_voucher_payload_to_v2 s) ≡ ok s
  unfolding convert_voucher_payload_to_v2
  voucher-content = slice_from-ok 10 _ (omega arith)

  voucher-mark : slice 2 10 (convert_voucher_payload_to_v2 s) ≡ ok voucher_selector
  unfolding convert_voucher_payload_to_v2
  voucher-mark = slice-ok 2 10 _ (omega arith)

  notice-content : slice_from 10 (convert_notice_payload_to_v2 s) ≡ ok s
  unfolding convert_notice_payload_to_v2
  notice-content = slice_from-ok 10 _ (omega arith)

  notice-mark : slice 2 10 (convert_notice_payload_to_v2 s) ≡ ok notice_selector
  unfolding convert_notice_payload_to_v2
  notice-mark = slice-ok 2 10 _ (omega arith)

  voucher-stripped : slice_from 2 (convert_voucher_payload_to_v2 s) ≡ ok (voucher_selector ++ s)
  unfolding convert_voucher_payload_to_v2
  voucher-stripped = slice_from-ok 2 _ (omega arith)

-- What the handler of the synchronizer compares with the selector.
late-mark :
    (a b : ℕ) (s : Text)
    → slice 2 10 (voucher_selector ++ a ∷ b ∷ s) ≡ ok (codes "615e2f" ++ a ∷ b ∷ [])
late-mark a b s = slice-ok 2 10 _ (omega arith)

module _ ⦃x : External⦄ (ctx : Context) where
  pub handle_output-voucher :
      (destination : Address) (s : Text) (i o : ℕ) (db : Db)
      → handle_output ctx destination (convert_voucher_payload_to_v2 s) i o db
        ≡ (Service.create_voucher ctx (voucher_with destination s i o) >> pure tt) db
  unfolding handle_output store_voucher store_notice remove_selector text_eq
  handle_output-voucher destination s i o db = rw (voucher-mark s, voucher-content s) refl

  pub handle_output-notice :
      (destination : Address) (s : Text) (i o : ℕ) (db : Db)
      → handle_output ctx destination (convert_notice_payload_to_v2 s) i o db
        ≡ (Service.create_notice ctx (notice_with s i o 0) >> pure tt) db
  unfolding handle_output store_voucher store_notice remove_selector text_eq
  handle_output-notice destination s i o db = rw (notice-mark s, notice-content s) refl

  -- What the conversion to v2 marks as a voucher, with a content of at least two symbols, the handler of
  -- the rollup stores as a voucher for the zero address; and the handler of the synchronizer, if the
  -- decoding of an advance takes the content, stores it as a notice for the application of that advance:
  -- it makes no voucher of it, whatever the content.
  pub handle_output_v2-convert :
      (destination : Address) (to : Text) (a b : ℕ) (s : Text) (i o : ℕ) {c : EvmAdvance} (db : Db)
      → x.unpack_evm_advance (x.hex_to_bytes (a ∷ b ∷ s)) ≡ some c
      → (handle_output ctx destination (convert_voucher_payload_to_v2 (a ∷ b ∷ s)) i o db
          ≡ (Service.create_voucher ctx (voucher_with destination (a ∷ b ∷ s) i o) >> pure tt) db)
        × (handle_output_v2 ctx (marked to (a ∷ b ∷ s) i o) db
            ≡ (Service.create_notice ctx (notice_with (a ∷ b ∷ s) i o c.app_contract) >> pure tt)
                db)
  unfolding handle_output_v2 get_converted_input store_notice remove_selector text_eq
      convert_voucher_payload_to_v2
  handle_output_v2-convert destination to a b s i o db k = (
    handle_output-voucher destination (a ∷ b ∷ s) i o db,
    rw (voucher-content (a ∷ b ∷ s), k, voucher-stripped (a ∷ b ∷ s), late-mark a b s) refl,
  )
