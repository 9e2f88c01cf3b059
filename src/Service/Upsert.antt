-- ===== src/Service/Upsert.antt =====
-- What is found after `CreateVoucher`, `CreateNotice` and `CreateReport`.
use mathlib.Core.Option
use cartesi_rollups_hl_graph.Base.{
  ℕ, ◌≡◌, refl, ap, Option, none, some, find, if◌then◌else◌, ok, arith, [], ◌++◌, ◌∷◌, length,
}
use cartesi_rollups_hl_graph.External.{External, IsAddress}
use cartesi_rollups_hl_graph.Data.{ConvenienceVoucher}
use cartesi_rollups_hl_graph.Store.{VoucherRow, query, exec, background, Tables, calm}
use cartesi_rollups_hl_graph.Store.Table.{lookup, update}
use cartesi_rollups_hl_graph.Store.Table.Laws.{
  lookup-append, lookup-update, insert_free, key_eq_refl, length-update,
}
use cartesi_rollups_hl_graph.Repository.Voucher
use cartesi_rollups_hl_graph.Service.{create_voucher}

-- Reading under a key.
pub find_voucher_at :
    ⦃x : External⦄ (i o : ℕ) (t : Tables) (tx : Option Tables)
    → (Voucher.find_voucher_by_input_and_output_index i o (calm t tx)).0
      ≡ ok (
          Option.map Voucher.convert_to_convenience_voucher
            (lookup Voucher.row_key (i, o) t.vouchers))
unfolding Voucher.find_voucher_by_input_and_output_index query
find_voucher_at i o t tx = refl

module _ ⦃x : External⦄ (v : ConvenienceVoucher) (t : Tables) (tx : Option Tables) where
  -- `CreateVoucher` where no voucher of the application is stored for the input.
  pub create_voucher_first :
      find (Voucher.is_of_app v.input_index v.app_contract) t.vouchers ≡ none
      → lookup Voucher.row_key (v.input_index, v.output_index) t.vouchers ≡ none
      → create_voucher background v (calm t tx)
        ≡ (ok v, calm (record t { vouchers = t.vouchers ++ Voucher.to_row v ∷ [] }) tx)
  unfolding create_voucher Voucher.find_voucher_by_app_contract_and_index Voucher.create_voucher
      Voucher.to_row query exec
  create_voucher_first first free =
      rw (first, insert_free Voucher.row_key (Voucher.to_row v) t.vouchers free)

  -- `CreateVoucher` where one is.
  pub create_voucher_again :
      (r : VoucherRow)
      → find (Voucher.is_of_app v.input_index v.app_contract) t.vouchers ≡ some r
      → create_voucher background v (calm t tx) ≡ (
        ok v,
        calm
            (record t {
              vouchers =
                  update
                    (Voucher.is_at v.input_index v.output_index)
                    (Voucher.overwrite v)
                    t.vouchers;
            })
            tx,
      )
  unfolding create_voucher Voucher.find_voucher_by_app_contract_and_index Voucher.update_voucher
      query exec
  create_voucher_again r again = rw again

  lookup_first :
      lookup Voucher.row_key (v.input_index, v.output_index) t.vouchers ≡ none
      → lookup Voucher.row_key (v.input_index, v.output_index) (t.vouchers ++ Voucher.to_row v ∷ [])
        ≡ some (Voucher.to_row v)
  unfolding Voucher.to_row
  lookup_first free = rw (
    lookup-append Voucher.row_key (v.input_index, v.output_index) (Voucher.to_row v) t.vouchers,
    free,
    key_eq_refl (v.input_index, v.output_index),
  )

  lookup_again :
      lookup Voucher.row_key
        (v.input_index, v.output_index)
        (update (Voucher.is_at v.input_index v.output_index) (Voucher.overwrite v) t.vouchers)
      ≡ Option.map
          (λ r. if Voucher.is_at v.input_index v.output_index r then Voucher.overwrite v r else r)
          (lookup Voucher.row_key (v.input_index, v.output_index) t.vouchers)
  lookup_again = lookup-update Voucher.row_key _ (Voucher.overwrite v) _ t.vouchers (λ r. refl)

  convert-to_row :
      IsAddress v.destination
      → IsAddress v.app_contract
      → Voucher.convert_to_convenience_voucher (Voucher.to_row v) ≡ v
  unfolding Voucher.convert_to_convenience_voucher Voucher.to_row
  convert-to_row d a =
      cc (x.address_round_trip v.destination d, x.address_round_trip v.app_contract a)

  restored :
      (s : VoucherRow)
      → s.app_contract ≡ x.address_hex v.app_contract
      → s.input_index ≡ v.input_index
      → s.output_index ≡ v.output_index
      → IsAddress v.destination
      → IsAddress v.app_contract
      → Voucher.convert_to_convenience_voucher
          (if Voucher.is_at v.input_index v.output_index s then Voucher.overwrite v s else s)
        ≡ v
  unfolding Voucher.convert_to_convenience_voucher
  restored s same_app same_input same_output d a =
      ground (arith, x.address_round_trip v.destination, x.address_round_trip v.app_contract)

  -- Where the engine refuses no statement, and outside a transaction: a voucher, with addresses of 20
  -- bytes, for an input that has no voucher of its application yet, under indices that are free, is
  -- created, and is then found under its indices as it was given.
  pub find-create_voucher :
      find (Voucher.is_of_app v.input_index v.app_contract) t.vouchers ≡ none
      → lookup Voucher.row_key (v.input_index, v.output_index) t.vouchers ≡ none
      → IsAddress v.destination
      → IsAddress v.app_contract
      → let c = create_voucher background v (calm t tx) in
        (c.0 ≡ ok v)
        × ((Voucher.find_voucher_by_input_and_output_index v.input_index v.output_index c.1).0
            ≡ ok (some v))
  find-create_voucher first free d a =
      rw (create_voucher_first first free, find_voucher_at, lookup_first free, convert-to_row d a)
        (refl, refl)

  -- Where the engine refuses no statement, and outside a transaction: a second voucher of an application
  -- for one input, under indices of its own that are free, is lost. The call returns it as if it was
  -- stored, the table has as many rows as before, and nothing is found under its indices.
  pub create_voucher_lost :
      (r : VoucherRow)
      → find (Voucher.is_of_app v.input_index v.app_contract) t.vouchers ≡ some r
      → lookup Voucher.row_key (v.input_index, v.output_index) t.vouchers ≡ none
      → let c = create_voucher background v (calm t tx) in
        (c.0 ≡ ok v)
        × (length c.1.committed.vouchers ≡ length t.vouchers)
        × ((Voucher.find_voucher_by_input_and_output_index v.input_index v.output_index c.1).0
            ≡ ok none)
  create_voucher_lost r again free =
      rw (create_voucher_again r again, find_voucher_at, lookup_again, free)
        (refl, length-update _ _ t.vouchers, refl)

  -- Where the engine refuses no statement, and outside a transaction: a voucher, with addresses of 20
  -- bytes, that is stored again under the indices of a row of its application is replaced. It is then
  -- found as it was given, and the table has as many rows as before.
  pub find-create_voucher_again :
      (r s : VoucherRow)
      → find (Voucher.is_of_app v.input_index v.app_contract) t.vouchers ≡ some r
      → lookup Voucher.row_key (v.input_index, v.output_index) t.vouchers ≡ some s
      → s.app_contract ≡ x.address_hex v.app_contract
      → s.input_index ≡ v.input_index
      → s.output_index ≡ v.output_index
      → IsAddress v.destination
      → IsAddress v.app_contract
      → let c = create_voucher background v (calm t tx) in
        (length c.1.committed.vouchers ≡ length t.vouchers)
        × ((Voucher.find_voucher_by_input_and_output_index v.input_index v.output_index c.1).0
            ≡ ok (some v))
  find-create_voucher_again r s again there same_app same_input same_output d a =
      rw (create_voucher_again r again, find_voucher_at, lookup_again, there)
        (
          length-update _ _ t.vouchers,
          ap (λ y. ok (some y)) (restored s same_app same_input same_output d a),
        )
