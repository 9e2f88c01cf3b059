-- ===== src/Http/Convert.antt =====
-- internal/rollup/rollup.go: the input that the application is handed, and what it reads of it.
use cartesi_rollups_hl_graph.Base.{
  spelled-spell, length-spell, spell-AllBytes, ℕ, ◌≡◌, Text, AllBytes, length,
}
use cartesi_rollups_hl_graph.External.{Address, IsAddress, External}
use cartesi_rollups_hl_graph.Data.{unix}
use cartesi_rollups_hl_graph.Http.{address_bytes, address_of_bytes}
use cartesi_rollups_hl_graph.Rollup.Operations.{NextInput, advance_input, inspect_input}

-- `Metadata`; its other fields are not set by `convertInput`.
pub record Metadata : Type 0 where
  pub block_number : ℕ
  pub input_index : ℕ
  pub msg_sender : Text
  pub block_timestamp : ℕ

-- `RollupRequest`: the union of an advance and an inspect, with its request type. The conversion of
-- a value that is neither is an error in the source, and cannot be stated here.
pub data RollupRequest : Type 0 where
  advance_state : (metadata : Metadata) (payload : Text) → RollupRequest
  inspect_state : (payload : Text) → RollupRequest

module _ ⦃x : External⦄ where
  -- convertInput
  unfoldable pub convert_input : NextInput → RollupRequest
  convert_input (advance_input i) =
      advance_state
        (record {
          block_number = i.block_number;
          input_index = i.index;
          msg_sender = x.hexutil_encode (address_bytes i.msg_sender);
          block_timestamp = unix i.block_timestamp;
        })
        (x.hexutil_encode i.payload)
  convert_input (inspect_input i) = inspect_state (x.hexutil_encode i.payload)

pub address_of_bytes-address_bytes :
    (a : Address) → IsAddress a → address_of_bytes (address_bytes a) ≡ a
unfolding address_of_bytes address_bytes
address_of_bytes-address_bytes a h = spelled-spell 20 a h

pub length-address_bytes : (a : Address) → length (address_bytes a) ≡ 20
unfolding address_bytes
length-address_bytes = length-spell 20

pub address_bytes-AllBytes : (a : Address) → AllBytes (address_bytes a)
unfolding address_bytes
address_bytes-AllBytes = spell-AllBytes 20
