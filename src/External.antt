-- ===== src/External.antt =====
-- What the repository takes from code outside it: go-ethereum's conversions of addresses and bytes
-- (`common.Address.Hex`, `HexToAddress`, `Bytes2Hex`, `Hex2Bytes`, `IsHexAddress`, and
-- `hexutil.Encode`, `Decode`), its ABI decoder at the two methods that the code names, and the SQL
-- engine's comparison of an integer column with a text parameter. The laws are the documented
-- behaviour that the code relies on.
use cartesi_rollups_hl_graph.Base.{
  ℕ, ◌^◌, ◌<◌, ◌≡◌, Bool, Option, some, ltb, ◌==◌, Text, AllBytes, decimal,
}

-- An address is the number that its 20 bytes spell.
abbrev pub Address : Type 0
Address = ℕ

abbrev pub IsAddress : Address → Type 0
IsAddress a = a < 2 ^ 160

-- What the code reads of the values that `EvmAdvance(...)` unpacks to.
pub record EvmAdvance : Type 0 where
  pub app_contract : Address
  pub msg_sender : Address
  pub block_number : ℕ
  pub block_timestamp : ℕ
  pub prev_randao : ℕ
  pub payload : Text

pub record External : Type 0 where
  pub address_hex : Address → Text
  pub hex_to_address : Text → Address
  pub bytes_to_hex : Text → Text
  pub hex_to_bytes : Text → Text
  pub is_hex_address : Text → Bool
  pub hexutil_encode : Text → Text
  pub hexutil_decode : Text → Option Text
  pub unpack_evm_advance : Text → Option EvmAdvance
  pub unpack_voucher_destination : Text → Option Address
  -- a column's number against a parameter's text: =, > and <
  pub integer_eq : ℕ → Text → Bool
  pub integer_gt : ℕ → Text → Bool
  pub integer_lt : ℕ → Text → Bool
  pub address_round_trip : (a : Address) → IsAddress a → hex_to_address (address_hex a) ≡ a
  pub bytes_round_trip : (b : Text) → AllBytes b → hex_to_bytes (bytes_to_hex b) ≡ b
  pub hexutil_round_trip : (b : Text) → AllBytes b → hexutil_decode (hexutil_encode b) ≡ some b
  pub integer_eq_decimal : (n m : ℕ) → integer_eq n (decimal m) ≡ (n == m)
  pub integer_gt_decimal : (n m : ℕ) → integer_gt n (decimal m) ≡ ltb m n
  pub integer_lt_decimal : (n m : ℕ) → integer_lt n (decimal m) ≡ ltb n m
