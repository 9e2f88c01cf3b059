-- ===== src/Decoder.antt =====
-- internal/convenience/decoder/decoder.go and internal/convenience/adapter/adapter.go: outputs,
-- inputs and reports as hexadecimal texts are decoded and handed to the service. A slice out of
-- range is a panic. ABI unpacking is outside the repository.
pub mod Selector
use cartesi_rollups_hl_graph.Base.{
  ◌%◌, ◌^◌, slice, slice_from, ℕ, ◌*◌, false, Option, none, some, ◌++◌, Text, codes, text_eq,
  decimal, if◌then◌else◌, Result, ok, err, bad_blob, Exec, ◌>>=◌, ◌>>◌, pure, lift, bind, [],
}
use cartesi_rollups_hl_graph.External.{Address, External, EvmAdvance}
use cartesi_rollups_hl_graph.Data.{CompletionStatus, ProcessOutputData}
use cartesi_rollups_hl_graph.Store.{Db, Context}
use cartesi_rollups_hl_graph.Service

abbrev pub voucher_selector : Text
voucher_selector = codes "ef615e2f"

abbrev pub notice_selector : Text
notice_selector = codes "c258d6e5"

unfoldable pub convert_voucher_payload_to_v2 : Text → Text
convert_voucher_payload_to_v2 payload_v1 = codes "0x" ++ (voucher_selector ++ payload_v1)

unfoldable pub convert_notice_payload_to_v2 : Text → Text
convert_notice_payload_to_v2 payload_v1 = codes "0x" ++ (notice_selector ++ payload_v1)

with_prefix : Result Text → Result Text
with_prefix (ok s) = ok (codes "0x" ++ s)
with_prefix (err e) = err e

unfoldable pub remove_selector : Text → Result Text
unfolding with_prefix
remove_selector payload = with_prefix (slice_from 10 payload)

done {ℓ} : {A : Type ℓ} → A → Exec Db (Unit {0})
done _ = pure tt

module _ ⦃x : External⦄ where
  unfoldable pub store_voucher : Context → Address → Text → ℕ → ℕ → Address → Exec Db (Unit {0})
  store_voucher ctx destination payload i o app = do
    stripped ← lift (remove_selector payload)
    Service.create_voucher ctx (record {
      destination = destination;
      payload = stripped;
      input_index = i;
      output_index = o;
      executed = false;
      app_contract = app;
    })
    pure tt

  unfoldable pub store_notice : Context → Text → ℕ → ℕ → Address → Exec Db (Unit {0})
  store_notice ctx payload i o app = do
    stripped ← lift (remove_selector payload)
    Service.create_notice ctx
        (record { payload = stripped; input_index = i; output_index = o; app_contract = app })
    pure tt

  -- The outputs of the rollup: their application is the zero address.
  unfoldable pub handle_output : Context → Address → Text → ℕ → ℕ → Exec Db (Unit {0})
  unfolding store_voucher store_notice
  handle_output ctx destination payload i o = do
    selector ← lift (slice 2 10 payload)
    (if text_eq selector voucher_selector
        then store_voucher ctx destination payload i o 0
        else store_notice ctx payload i o 0)

  unpacked {ℓ} : {A : Type ℓ} → Option A → Result A
  unpacked none = err bad_blob
  unpacked (some a) = ok a

  unfoldable pub get_converted_input : Text → Result EvmAdvance
  unfolding unpacked
  get_converted_input blob =
      bind (slice_from 10 blob) (λ s. unpacked (x.unpack_evm_advance (x.hex_to_bytes s)))

  unfoldable pub retrieve_destination : Text → Result Address
  unfolding unpacked
  retrieve_destination payload =
      bind (slice_from 10 payload) (λ s. unpacked (x.unpack_voucher_destination (x.hex_to_bytes s)))

  unfoldable pub store_voucher_v2 : Context → ProcessOutputData → Address → Exec Db (Unit {0})
  store_voucher_v2 ctx d app = do
    destination ← lift (retrieve_destination d.payload)
    store_voucher ctx destination d.payload d.input_index d.output_index app

  unfoldable pub handle_output_v2 : Context → ProcessOutputData → Exec Db (Unit {0})
  unfolding store_voucher_v2 store_voucher store_notice
  handle_output_v2 ctx d = do
    converted ← lift (get_converted_input d.payload)
    payload ← lift (slice_from 2 d.payload)
    selector ← lift (slice 2 10 payload)
    (if text_eq selector voucher_selector
        then store_voucher_v2 ctx d converted.app_contract
        else store_notice ctx d.payload d.input_index d.output_index converted.app_contract)

  unfoldable pub handle_input : Context → ℕ → Text → CompletionStatus → Exec Db (Unit {0})
  handle_input ctx index blob status = do
    converted ← lift (get_converted_input blob)
    Service.create_input ctx (record {
      index = index;
      status = status;
      msg_sender = converted.msg_sender;
      payload = converted.payload;
      block_number = converted.block_number % 2 ^ 64;
      block_timestamp = converted.block_timestamp * 1000000000;
      prev_randao = decimal converted.prev_randao;
      app_contract = converted.app_contract;
      vouchers = [];
      notices = [];
      reports = [];
      exception = [];
    })
    pure tt

  -- The report is stored for the zero address.
  unfoldable pub handle_report : Context → ℕ → ℕ → Text → Exec Db (Unit {0})
  handle_report ctx index output_index payload = do
    Service.create_report ctx
        (record { index = output_index; input_index = index; payload = payload; app_contract = 0 })
    pure tt
