-- ===== src/Repository/Input.antt =====
-- internal/convenience/repository/input_repository.go. The primary key is a serial number, so INSERT
-- never meets a key that is taken.
use cartesi_rollups_hl_graph.Base.{
  ℕ, ◌*◌, Bool, Option, none, some, List, [], ◌∷◌, ◌++◌, Text, text_eq, decimal, find, ◌==◌, ◌&&◌,
  ltb, str_eq, if◌then◌else◌, ℤ, Result, ok, err, bind, Exec, ◌>>=◌, ◌>>◌, pure, not_implemented,
  unexpected_field,
}
use mathlib.Core.Option
use cartesi_rollups_hl_graph.External.{Address, External}
use cartesi_rollups_hl_graph.Store.{Db, InputRow, Context, query, exec}
use cartesi_rollups_hl_graph.Store.Table.{update, order_by}
use cartesi_rollups_hl_graph.Repository.Query.{
  Column, input_index, output_index, status, msg_sender, Value, integer, words, absent, Arg, text,
  Op, Comparison, Page, deref,
}
use cartesi_rollups_hl_graph.Repository.Query
use cartesi_rollups_hl_graph.Data.{AdvanceInput, CompletionStatus, ConvenienceFilter, unix_milli}

-- ORDER BY input_index ASC
abbrev pub sorted : List InputRow → List InputRow
sorted = order_by (λ r s. ltb r.index s.index)

-- The status column is a text.
abbrev pub value : InputRow → Column → Value
value r Column.input_index = integer r.index
value r Column.status = words (decimal r.status)
value r Column.msg_sender = words r.msg_sender
value r _ = absent

-- The branches of `transformToInputQuery` for one filter.
index_comparison : Option Text → Option Text → Option Text → Result Comparison
index_comparison (some t) _ _ = ok (record { column = input_index; op = Op.eq; arg = text t })
index_comparison none (some t) _ = ok (record { column = input_index; op = Op.gt; arg = text t })
index_comparison none none (some t) = ok (record { column = input_index; op = Op.lt; arg = text t })
index_comparison none none none = err not_implemented

status_comparison : Option Text → Result Comparison
status_comparison none = err not_implemented
status_comparison (some t) = ok (record { column = status; op = Op.ne; arg = text t })

sender_comparison : Option Text → Result Comparison
sender_comparison none = err not_implemented
sender_comparison (some t) = ok (record { column = msg_sender; op = Op.eq; arg = text t })

unfoldable pub comparison : ConvenienceFilter → Result Comparison
unfolding index_comparison status_comparison sender_comparison
comparison f = bind (deref f.field) λ field.
    if str_eq field "Index"
    then index_comparison f.eq f.gt f.lt
    else if str_eq field "Status"
    then status_comparison f.ne
    else if str_eq field "MsgSender"
    then sender_comparison f.eq
    else err unexpected_field

module _ ⦃x : External⦄ where
  -- The arguments of INSERT.
  unfoldable pub to_row : AdvanceInput → InputRow
  to_row i = record {
    index = i.index;
    status = i.status;
    msg_sender = x.address_hex i.msg_sender;
    payload = x.bytes_to_hex i.payload;
    block_number = i.block_number;
    block_timestamp = unix_milli i.block_timestamp;
    prev_randao = i.prev_randao;
    exception = x.bytes_to_hex i.exception;
    app_contract = x.address_hex i.app_contract;
  }

  -- `parseRowInput` and `parseInput` alike; the outputs are not stored with the input.
  unfoldable pub parse_input : InputRow → AdvanceInput
  parse_input row = record {
    index = row.index;
    status = row.status;
    msg_sender = x.hex_to_address row.msg_sender;
    payload = x.hex_to_bytes row.payload;
    block_number = row.block_number;
    block_timestamp = row.block_timestamp * 1000000;
    prev_randao = row.prev_randao;
    app_contract = x.hex_to_address row.app_contract;
    vouchers = [];
    notices = [];
    reports = [];
    exception = x.hex_to_bytes row.exception;
  }

  unfoldable pub raw_create : Context → AdvanceInput → Exec Db AdvanceInput
  raw_create ctx input = do
    exec ctx (λ t. ok (record t { inputs = t.inputs ++ to_row input ∷ [] }))
    pure input

  -- SET status, exception; whatever the application.
  abbrev pub conclude : AdvanceInput → InputRow → InputRow
  conclude input r = record r { status = input.status; exception = x.bytes_to_hex input.exception }

  unfoldable pub update_input : Context → AdvanceInput → Exec Db AdvanceInput
  update_input ctx input = do
    exec ctx λ t.
        ok (record t { inputs = update (λ r. r.index == input.index) (conclude input) t.inputs })
    pure input

  -- WHERE status = $1 ORDER BY input_index ASC, and the first row.
  unfoldable pub find_by_status : CompletionStatus → Exec Db (Option AdvanceInput)
  find_by_status s = do
    row ← query (λ t. ok (find (λ r. r.status == s) (sorted t.inputs)))
    pure (Option.map parse_input row)

  unfoldable pub find_by_index : ℕ → Exec Db (Option AdvanceInput)
  find_by_index index = do
    row ← query (λ t. ok (find (λ r. r.index == index) t.inputs))
    pure (Option.map parse_input row)

  -- WHERE input_index = $1 AND app_contract = $2
  abbrev pub is_of_app : ℕ → Address → InputRow → Bool
  is_of_app index app r = r.index == index && text_eq r.app_contract (x.address_hex app)

  unfoldable pub find_input_by_app_contract_and_index : ℕ → Address → Exec Db (Option AdvanceInput)
  find_input_by_app_contract_and_index index app = do
    row ← query (λ t. ok (find (is_of_app index app) t.inputs))
    pure (Option.map parse_input row)

  or_create : Context → AdvanceInput → Option AdvanceInput → Exec Db AdvanceInput
  or_create ctx input (some exist) = pure exist
  or_create ctx input none = raw_create ctx input

  unfoldable pub create : Context → AdvanceInput → Exec Db AdvanceInput
  unfolding or_create
  create ctx input = do exist ← find_by_index input.index; or_create ctx input exist

  unfoldable pub count : List ConvenienceFilter → Exec Db ℕ
  count = Query.count (λ t. t.inputs) value comparison

  unfoldable pub find_all :
      Option ℤ
      → Option ℤ
      → Option Text
      → Option Text
      → List ConvenienceFilter
      → Exec Db (Page AdvanceInput)
  find_all = Query.find_all (λ t. t.inputs) value comparison sorted parse_input
