-- ===== src/Repository/Notice.antt =====
-- internal/convenience/repository/notice_repository.go
use cartesi_rollups_hl_graph.Base.{
  ℕ, Bool, Option, none, some, List, Text, text_eq, find, ◌==◌, ◌&&◌, str_eq, if◌then◌else◌, ℤ,
  Result, ok, err, bind, Exec, ◌>>=◌, ◌>>◌, pure, not_implemented, unexpected_field,
}
use mathlib.Core.Option
use cartesi_rollups_hl_graph.External.{Address, External}
use cartesi_rollups_hl_graph.Store.{Db, Tables, NoticeRow, Context, query, exec}
use cartesi_rollups_hl_graph.Store.Table.{Key, key_lt, lookup, insert, update, order_by}
use cartesi_rollups_hl_graph.Repository.Query.{
  Column, input_index, output_index, status, msg_sender, Value, integer, words, absent, Arg, text,
  Op, Comparison, Page, deref,
}
use cartesi_rollups_hl_graph.Repository.Query
use cartesi_rollups_hl_graph.Data.{ConvenienceNotice, ConvenienceFilter}

-- PRIMARY KEY (input_index, output_index), and the order of the pages.
abbrev pub row_key : NoticeRow → Key
row_key r = (r.input_index, r.output_index)

abbrev pub sorted : List NoticeRow → List NoticeRow
sorted = order_by (λ r s. key_lt (row_key r) (row_key s))

abbrev pub value : NoticeRow → Column → Value
value r Column.input_index = integer r.input_index
value r Column.output_index = integer r.output_index
value r _ = absent

abbrev pub with_notices : Tables → Result (List NoticeRow) → Result Tables
with_notices t (ok rows) = ok (record t { notices = rows })
with_notices t (err e) = err e

abbrev pub is_at : ℕ → ℕ → NoticeRow → Bool
is_at i o r = r.input_index == i && r.output_index == o

index_comparison : Option Text → Result Comparison
index_comparison none = err not_implemented
index_comparison (some t) = ok (record { column = input_index; op = Op.eq; arg = text t })

-- The branch of `transformToNoticeQuery` for one filter.
unfoldable pub comparison : ConvenienceFilter → Result Comparison
unfolding index_comparison
comparison f =
    bind (deref f.field)
      λ field. if str_eq field "InputIndex" then index_comparison f.eq else err unexpected_field

module _ ⦃x : External⦄ where
  -- The arguments of INSERT.
  unfoldable pub to_row : ConvenienceNotice → NoticeRow
  to_row n = record {
    payload = n.payload;
    input_index = n.input_index;
    output_index = n.output_index;
    app_contract = x.address_hex n.app_contract;
  }

  -- `parseRowNotice` and `parseNotice` alike.
  unfoldable pub parse_notice : NoticeRow → ConvenienceNotice
  parse_notice row = record {
    payload = row.payload;
    input_index = row.input_index;
    output_index = row.output_index;
    app_contract = x.hex_to_address row.app_contract;
  }

  unfoldable pub create : Context → ConvenienceNotice → Exec Db ConvenienceNotice
  create ctx notice = do
    exec ctx (λ t. with_notices t (insert row_key (to_row notice) t.notices))
    pure notice

  unfoldable pub update_notice : Context → ConvenienceNotice → Exec Db ConvenienceNotice
  update_notice ctx notice = do
    exec ctx λ t. ok (record t {
      notices =
          update (is_at notice.input_index notice.output_index)
            (λ r. record r { payload = notice.payload }) t.notices;
    })
    pure notice

  unfoldable pub find_by_input_and_output_index : ℕ → ℕ → Exec Db (Option ConvenienceNotice)
  find_by_input_and_output_index i o = do
    row ← query (λ t. ok (lookup row_key (i, o) t.notices))
    pure (Option.map parse_notice row)

  -- WHERE input_index = $1 AND app_contract = $2
  abbrev pub is_of_app : ℕ → Address → NoticeRow → Bool
  is_of_app index app r = r.input_index == index && text_eq r.app_contract (x.address_hex app)

  unfoldable pub find_notice_by_app_contract_and_index :
      ℕ → Address → Exec Db (Option ConvenienceNotice)
  find_notice_by_app_contract_and_index index app = do
    row ← query (λ t. ok (find (is_of_app index app) t.notices))
    pure (Option.map parse_notice row)

  unfoldable pub count : List ConvenienceFilter → Exec Db ℕ
  count = Query.count (λ t. t.notices) value comparison

  unfoldable pub find_all_notices :
      Option ℤ
      → Option ℤ
      → Option Text
      → Option Text
      → List ConvenienceFilter
      → Exec Db (Page ConvenienceNotice)
  find_all_notices = Query.find_all (λ t. t.notices) value comparison sorted parse_notice
