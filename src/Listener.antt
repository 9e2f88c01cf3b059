-- ===== src/Listener.antt =====
-- internal/convenience/output_exec_listener.go: OnEvent, which marks a voucher as executed if it is given
-- its identifier, a `uint256`; of the voucher part, `Uint64` keeps the low bits. Listener/Watch has the
-- worker that watches the chain, and what the events of the contract carry.
pub mod Executed
pub mod Watch
pub mod Unheard
use cartesi_rollups_hl_graph.Base.{
  Text, ℕ, ◌+◌, ◌*◌, ◌/◌, ◌%◌, ◌^◌, ◌<◌, ◌≡◌, refl, ap, ◌∙◌, true, Option, none, some, List, [],
  ◌∷◌, Result, ok, err, wrong_event, wrong_event_value, Exec, raise, arith, if◌then◌else◌,
  Bool-cases, inl, inr,
}
use mathlib.Core.Option
use cartesi_rollups_hl_graph.External.{External}
use cartesi_rollups_hl_graph.Data.{ConvenienceVoucher}
use cartesi_rollups_hl_graph.Store.{Db, Tables, VoucherRow, calm, exec}
use cartesi_rollups_hl_graph.Store.Table.{lookup, key_eq}
use cartesi_rollups_hl_graph.Store.Table.Laws.{lookup-update}
use cartesi_rollups_hl_graph.Repository.Voucher
use cartesi_rollups_hl_graph.Service.Upsert.{find_voucher_at}

pub data EventValue : Type 0 where
  big_int : ℕ → EventValue
  uint64 : ℕ → EventValue
  bytes : Text → EventValue

unfoldable pub voucher_of : ℕ → ℕ
voucher_of id = id / 2 ^ 128 % 2 ^ 64

-- The mask has 64 bits.
unfoldable pub input_of : ℕ → ℕ
input_of id = id % 2 ^ 64

unfoldable pub on_event : List EventValue → Exec Db (Unit {0})
on_event (big_int id ∷ []) = Voucher.update_executed (input_of id) (voucher_of id) true
on_event (uint64 n ∷ []) = raise wrong_event_value
on_event (bytes s ∷ []) = raise wrong_event_value
on_event _ = raise wrong_event

-- The identifier of the output `o` of the input `i`, as OnEvent takes it apart.
abbrev pub identifier : ℕ → ℕ → ℕ
identifier i o = i + o * 2 ^ 128
