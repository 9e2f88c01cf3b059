-- ===== src/Listener/Executed.antt =====
-- internal/convenience/output_exec_listener.go: which voucher OnEvent marks, given one `*big.Int`.
use cartesi_rollups_hl_graph.Base.{
  ℕ, ◌^◌, ◌<◌, ◌≡◌, refl, ap, ◌∙◌, true, Option, none, some, List, [], ◌∷◌, ok, arith,
  if◌then◌else◌,
}
use mathlib.Core.Option
use cartesi_rollups_hl_graph.External.{External}
use cartesi_rollups_hl_graph.Data.{ConvenienceVoucher}
use cartesi_rollups_hl_graph.Store.{Tables, VoucherRow, calm, exec}
use cartesi_rollups_hl_graph.Store.Table.{lookup, key_eq}
use cartesi_rollups_hl_graph.Store.Table.Laws.{lookup-update, lookup-eq-some}
use cartesi_rollups_hl_graph.Repository.Voucher
use cartesi_rollups_hl_graph.Service.Upsert.{find_voucher_at}
use cartesi_rollups_hl_graph.Listener.{big_int, voucher_of, input_of, on_event, identifier}

input_of-identifier : (i o : ℕ) → i < 2 ^ 64 → input_of (identifier i o) ≡ i
unfolding input_of
input_of-identifier i o h = omega arith

voucher_of-identifier : (i o : ℕ) → i < 2 ^ 64 → o < 2 ^ 64 → voucher_of (identifier i o) ≡ o
unfolding voucher_of
voucher_of-identifier i o h k = omega arith

module _ ⦃x : External⦄ where
  -- What the update of the row at (i, o) makes of the row that is found at (j, p).
  marked_row :
      (i o j p : ℕ) (rows : List VoucherRow) (found : Option VoucherRow)
      → lookup Voucher.row_key (j, p) rows ≡ found
      → Option.map Voucher.convert_to_convenience_voucher
          (Option.map (λ r. if Voucher.is_at i o r then record r { executed = true } else r) found)
        ≡ Option.map
            (λ v. if key_eq (j, p) (i, o) then record v { executed = true } else v)
            (Option.map Voucher.convert_to_convenience_voucher found)
  unfolding Voucher.convert_to_convenience_voucher
  marked_row i o j p rows none e = refl
  marked_row i o j p rows (some r) e =
      ground (arith, lookup-eq-some Voucher.row_key (j, p) r rows e)

  -- Where the engine refuses no statement: OnEvent, given the identifier of the output `o` of the input `i`,
  -- both of 64 bits, as a `*big.Int`, marks the voucher that is found under these indices as executed, and leaves what is found under any
  -- others as it was.
  pub find-on_event :
      (i o j p : ℕ) (t : Tables) (tx : Option Tables) {before : Option ConvenienceVoucher}
      → i < 2 ^ 64
      → o < 2 ^ 64
      → (Voucher.find_voucher_by_input_and_output_index j p (calm t tx)).0 ≡ ok before
      → let c = on_event (big_int (identifier i o) ∷ []) (calm t tx) in
        (c.0 ≡ ok tt)
        × ((Voucher.find_voucher_by_input_and_output_index j p c.1).0
            ≡ ok (
                Option.map
                  (λ v. if key_eq (j, p) (i, o) then record v { executed = true } else v)
                  before))
  unfolding on_event Voucher.update_executed exec
  find-on_event i o j p t tx {before} h k b =
      let was : Option.map Voucher.convert_to_convenience_voucher
            (lookup Voucher.row_key (j, p) t.vouchers)
          ≡ before =
        ground (arith, find_voucher_at j p t tx) in
      rw (input_of-identifier i o h, voucher_of-identifier i o h k)
        (
          refl,
          find_voucher_at j p _ tx
              ∙ rw
                  (
                    lookup-update Voucher.row_key (Voucher.is_at i o)
                        (λ r. record r { executed = true }) (j, p) t.vouchers (λ r. refl),
                    ← was,
                  )
                  (ap ok (marked_row i o j p t.vouchers _ refl)),
        )
