-- ===== src/Tests/World.antt =====
-- A concrete instance of the outside code, which fulfils its laws, and tables for the runs: an
-- address prints as one symbol, bytes as themselves, and an integer column is compared with the
-- number that a text spells.
use cartesi_rollups_hl_graph.Base.{
  ℕ, refl, Bool, true, false, Option, none, some, [], ◌∷◌, ltb, ◌==◌, Text, scan, scan-decimal,
}
use cartesi_rollups_hl_graph.External.{Address, External, EvmAdvance}
use cartesi_rollups_hl_graph.Store.{VoucherRow, InputRow, Tables}

first_symbol : Text → Address
first_symbol [] = 0
first_symbol (a ∷ s) = a

compared : (ℕ → Bool) → Option ℕ → Bool
compared p none = false
compared p (some m) = p m

unpacked : Text → Option EvmAdvance
unpacked [] = none
unpacked (a ∷ s) = some (record {
  app_contract = a;
  msg_sender = 2;
  block_number = 3;
  block_timestamp = 4;
  prev_randao = 5;
  payload = a ∷ s;
})

instance unfoldable pub world : External
unfolding first_symbol compared unpacked
world = record {
  address_hex = λ a. a ∷ [];
  hex_to_address = first_symbol;
  bytes_to_hex = λ b. b;
  hex_to_bytes = λ b. b;
  is_hex_address = λ t. true;
  hexutil_encode = λ b. b;
  hexutil_decode = λ b. some b;
  unpack_evm_advance = unpacked;
  unpack_voucher_destination = λ b. some (first_symbol b);
  integer_eq = λ n t. compared (λ m. n == m) (scan 0 t);
  integer_gt = λ n t. compared (λ m. ltb m n) (scan 0 t);
  integer_lt = λ n t. compared (λ m. ltb n m) (scan 0 t);
  address_round_trip = λ a h. refl;
  bytes_round_trip = λ b h. refl;
  hexutil_round_trip = λ b h. refl;
  integer_eq_decimal = λ n m. rw (scan-decimal m);
  integer_gt_decimal = λ n m. rw (scan-decimal m);
  integer_lt_decimal = λ n m. rw (scan-decimal m);
}

abbrev pub voucher_row : ℕ → ℕ → VoucherRow
voucher_row i o = record {
  destination = 7 ∷ [];
  payload = 1 ∷ [];
  input_index = i;
  output_index = o;
  executed = false;
  app_contract = 9 ∷ [];
}

abbrev pub input_row : ℕ → ℕ → InputRow
input_row i s = record {
  index = i;
  status = s;
  msg_sender = 5 ∷ [];
  payload = 6 ∷ [];
  block_number = 1;
  block_timestamp = 2;
  prev_randao = [];
  exception = [];
  app_contract = 0 ∷ [];
}

-- One voucher, notice and report of the application 9 for the input 3, and inputs out of order.
abbrev pub tables : Tables
tables = record {
  vouchers = voucher_row 3 0 ∷ [];
  notices =
      record { payload = 1 ∷ []; input_index = 3; output_index = 0; app_contract = 9 ∷ [] } ∷ [];
  reports =
      record { output_index = 0; input_index = 3; payload = 1 ∷ []; app_contract = 9 ∷ [] } ∷ [];
  inputs = input_row 4 0 ∷ input_row 2 0 ∷ input_row 1 1 ∷ [];
  fetches = [];
}
