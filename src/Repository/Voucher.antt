-- ===== src/Repository/Voucher.antt =====
-- internal/convenience/repository/voucher_repository.go
use cartesi_rollups_hl_graph.Base.{
  ℕ, Bool, true, false, Option, none, some, List, Text, codes, text_eq, find, length, ◌==◌, ◌&&◌,
  str_eq, if◌then◌else◌, ℤ, Result, ok, err, bind, Exec, ◌>>=◌, ◌>>◌, pure, wrong_address,
  not_implemented, unexpected_field, unexpected_value,
}
use mathlib.Core.Option
use cartesi_rollups_hl_graph.External.{Address, External}
use cartesi_rollups_hl_graph.Data.{ConvenienceVoucher, ConvenienceFilter}
use cartesi_rollups_hl_graph.Store.{Db, Tables, VoucherRow, Context, background, query, exec}
use cartesi_rollups_hl_graph.Store.Table.{Key, key_lt, lookup, insert, update, order_by}
use cartesi_rollups_hl_graph.Repository.Query.{
  Column, input_index, executed, destination, Value, integer, words, flag, absent, Arg, text, bool,
  Op, Comparison, Page, deref,
}
use cartesi_rollups_hl_graph.Repository.Query

-- PRIMARY KEY (input_index, output_index), and the order of the pages.
abbrev pub row_key : VoucherRow → Key
row_key r = (r.input_index, r.output_index)

abbrev pub sorted : List VoucherRow → List VoucherRow
sorted = order_by (λ r s. key_lt (row_key r) (row_key s))

abbrev pub value : VoucherRow → Column → Value
value r Column.input_index = integer r.input_index
value r Column.output_index = integer r.output_index
value r Column.executed = flag r.executed
value r Column.destination = words r.destination
value r _ = absent

abbrev pub with_vouchers : Tables → Result (List VoucherRow) → Result Tables
with_vouchers t (ok rows) = ok (record t { vouchers = rows })
with_vouchers t (err e) = err e

abbrev pub is_at : ℕ → ℕ → VoucherRow → Bool
is_at i o r = r.input_index == i && r.output_index == o

module _ ⦃x : External⦄ where
  -- The arguments of INSERT.
  unfoldable pub to_row : ConvenienceVoucher → VoucherRow
  to_row v = record {
    destination = x.address_hex v.destination;
    payload = v.payload;
    input_index = v.input_index;
    output_index = v.output_index;
    executed = v.executed;
    app_contract = x.address_hex v.app_contract;
  }

  unfoldable pub convert_to_convenience_voucher : VoucherRow → ConvenienceVoucher
  convert_to_convenience_voucher row = record {
    destination = x.hex_to_address row.destination;
    payload = row.payload;
    input_index = row.input_index;
    output_index = row.output_index;
    executed = row.executed;
    app_contract = x.hex_to_address row.app_contract;
  }

  unfoldable pub create_voucher : Context → ConvenienceVoucher → Exec Db ConvenienceVoucher
  create_voucher ctx voucher = do
    exec ctx (λ t. with_vouchers t (insert row_key (to_row voucher) t.vouchers))
    pure voucher

  -- SET destination, payload, executed.
  abbrev pub overwrite : ConvenienceVoucher → VoucherRow → VoucherRow
  overwrite v r = record r {
    destination = x.address_hex v.destination;
    payload = v.payload;
    executed = v.executed;
  }

  unfoldable pub update_voucher : Context → ConvenienceVoucher → Exec Db ConvenienceVoucher
  update_voucher ctx voucher = do
    exec ctx λ t. ok (record t {
      vouchers =
          update (is_at voucher.input_index voucher.output_index) (overwrite voucher) t.vouchers;
    })
    pure voucher

  unfoldable pub find_voucher_by_input_and_output_index :
      ℕ → ℕ → Exec Db (Option ConvenienceVoucher)
  find_voucher_by_input_and_output_index i o = do
    row ← query (λ t. ok (lookup row_key (i, o) t.vouchers))
    pure (Option.map convert_to_convenience_voucher row)

  -- WHERE input_index = $1 AND app_contract = $2
  abbrev pub is_of_app : ℕ → Address → VoucherRow → Bool
  is_of_app index app r = r.input_index == index && text_eq r.app_contract (x.address_hex app)

  -- `parseVoucher` of the first row that the query returns.
  unfoldable pub find_voucher_by_app_contract_and_index :
      ℕ → Address → Exec Db (Option ConvenienceVoucher)
  find_voucher_by_app_contract_and_index index app = do
    row ← query (λ t. ok (find (is_of_app index app) t.vouchers))
    pure (Option.map convert_to_convenience_voucher row)

  -- The branch of `transformToQuery` for one filter.
  executed_comparison : Text → Result Comparison
  executed_comparison t =
      if text_eq t (codes "true")
      then ok (record { column = executed; op = Op.eq; arg = bool true })
      else if text_eq t (codes "false")
      then ok (record { column = executed; op = Op.eq; arg = bool false })
      else err unexpected_value

  destination_comparison : Option Text → Result Comparison
  destination_comparison none = err not_implemented
  destination_comparison (some t) =
      if x.is_hex_address t
      then ok (record { column = destination; op = Op.eq; arg = text t })
      else err wrong_address

  index_comparison : Option Text → Result Comparison
  index_comparison none = err not_implemented
  index_comparison (some t) = ok (record { column = input_index; op = Op.eq; arg = text t })

  unfoldable pub comparison : ConvenienceFilter → Result Comparison
  unfolding executed_comparison destination_comparison index_comparison
  comparison f = bind (deref f.field) λ field.
      if str_eq field "Executed"
      then bind (deref f.eq) executed_comparison
      else if str_eq field "Destination"
      then destination_comparison f.eq
      else if str_eq field "InputIndex"
      then index_comparison f.eq
      else err unexpected_field

  unfoldable pub count : List ConvenienceFilter → Exec Db ℕ
  count = Query.count (λ t. t.vouchers) value comparison

  unfoldable pub find_all_vouchers :
      Option ℤ
      → Option ℤ
      → Option Text
      → Option Text
      → List ConvenienceFilter
      → Exec Db (Page ConvenienceVoucher)
  find_all_vouchers =
      Query.find_all (λ t. t.vouchers) value comparison sorted convert_to_convenience_voucher

-- UPDATE … SET executed, through `c.Db` whatever the context.
unfoldable pub update_executed : ℕ → ℕ → Bool → Exec Db (Unit {0})
update_executed i o executed_value = exec background λ t. ok (record t {
  vouchers = update (is_at i o) (λ r. record r { executed = executed_value }) t.vouchers;
})

-- An error of the query is swallowed: the count is 0 then.
or_zero : Result ℕ × Db → Result ℕ × Db
or_zero (ok n, db) = (ok n, db)
or_zero (err e, db) = (ok 0, db)

unfoldable pub voucher_count : Exec Db ℕ
unfolding or_zero
voucher_count db = or_zero (query (λ t. ok (length t.vouchers)) db)
