-- ===== src/Repository/Query.antt =====
-- The queries that the four repositories build alike: a WHERE clause from the filters (the loops of
-- `transformToQuery`, `transformToNoticeQuery`, `transformToReportQuery` and
-- `transformToInputQuery`), `Count`, and the page of `FindAll`. A query is built with the
-- placeholders `$1`, `$2`, … and a list of arguments, and the engine puts the arguments in.
pub mod Meaning
pub mod Paging
pub mod Answers
use cartesi_rollups_hl_graph.Base.{
  ℕ, zero, suc, ◌+◌, Bool, true, false, not, ◌&&◌, Option, none, some, List, [], ◌∷◌, ◌++◌, Text,
  text_eq, map, length, get_elem?, take, drop, select, ℤ, pos, Result, ok, err, db_fault, panic,
  bind, Exec, ◌>>=◌, pure, lift,
}
use cartesi_rollups_hl_graph.External.{External}
use cartesi_rollups_hl_graph.Data.{ConvenienceFilter}
use cartesi_rollups_hl_graph.Store.{Db, Tables, query}
use cartesi_rollups_hl_graph.Pagination.{compute_page}

pub data Column : Type 0 where
  input_index output_index executed destination status msg_sender : Column

pub data Op : Type 0 where
  eq ne gt lt : Op

pub data Arg : Type 0 where
  text : Text → Arg
  bool : Bool → Arg
  int : ℤ → Arg

-- What a row holds in a column.
pub data Value : Type 0 where
  integer : ℕ → Value
  words : Text → Value
  flag : Bool → Value
  absent : Value

-- `column op $placeholder`.
pub record Clause : Type 0 where
  pub column : Column
  pub op : Op
  pub placeholder : ℕ

-- The clauses of WHERE, which " and " joins, the arguments, and the number of the next placeholder.
pub record Where : Type 0 where
  pub clauses : List Clause
  pub args : List Arg
  pub count : ℕ

-- One filter, as a comparison and its argument.
pub record Comparison : Type 0 where
  pub column : Column
  pub op : Op
  pub arg : Arg

abbrev pub empty_where : Where
empty_where = record { clauses = []; args = []; count = 1 }

abbrev pub add_comparison : Where → Comparison → Where
add_comparison w c = record {
  clauses = w.clauses ++ record { column = c.column; op = c.op; placeholder = w.count } ∷ [];
  args = w.args ++ c.arg ∷ [];
  count = w.count + 1;
}

-- The loop over the filters; the first filter that is refused ends it.
unfoldable pub transform :
    (ConvenienceFilter → Result Comparison) → Where → List ConvenienceFilter → Result Where
transform comparison w [] = ok w
transform comparison w (f ∷ fs) =
    bind (comparison f) (λ c. transform comparison (add_comparison w c) fs)

-- The dereference of a nullable field.
abbrev pub deref {ℓ} : {A : Type ℓ} → Option A → Result A
deref none = err panic
deref (some a) = ok a

module _ ⦃x : External⦄ where
  -- The comparison of a row's value with an argument. Of an integer column with a text it is the
  -- engine's.
  unfoldable pub compare_value : Op → Value → Arg → Bool
  compare_value eq (integer n) (text t) = x.integer_eq n t
  compare_value gt (integer n) (text t) = x.integer_gt n t
  compare_value lt (integer n) (text t) = x.integer_lt n t
  compare_value ne (integer n) (text t) = not (x.integer_eq n t)
  compare_value eq (words s) (text t) = text_eq s t
  compare_value ne (words s) (text t) = not (text_eq s t)
  compare_value eq (flag true) (bool b) = b
  compare_value eq (flag false) (bool b) = not b
  compare_value _ _ _ = false

  -- The argument that a placeholder stands for.
  unfoldable pub argument : List Arg → ℕ → Option Arg
  argument args zero = none
  argument args (suc n) = get_elem? args n

  pub holds_with : Op → Value → Option Arg → Bool
  holds_with op v none = false
  holds_with op v (some a) = compare_value op v a

  module _ {R : Type 0} (value : R → Column → Value) where
    unfoldable pub holds : List Arg → R → Clause → Bool
    unfolding holds_with
    holds args r c = holds_with c.op (value r c.column) (argument args c.placeholder)

    unfoldable pub all_hold : List Arg → List Clause → R → Bool
    all_hold args [] r = true
    all_hold args (c ∷ cs) r = holds args r c && all_hold args cs r

  module _ {R : Type 0} (table : Tables → List R) (value : R → Column → Value)
      (comparison : ConvenienceFilter → Result Comparison) where
    -- SELECT count(*) FROM table WHERE …
    count_where : Where → Tables → Result ℕ
    count_where w t = ok (length (select (all_hold value w.args w.clauses) (table t)))

    unfoldable pub count : List ConvenienceFilter → Exec Db ℕ
    unfolding count_where
    count filter = do w ← lift (transform comparison empty_where filter); query (count_where w)

-- LIMIT and OFFSET are arguments too.
pub clip {ℓ} : {R : Type ℓ} → Option Arg → Option Arg → List R → Result (List R)
clip (some (int (pos l))) (some (int (pos o))) rows = ok (take l (drop o rows))
clip _ _ _ = err db_fault

pub record Page {ℓ} (T : Type ℓ) : Type ℓ where
  pub rows : List T
  pub total : ℕ
  pub offset : ℤ

module _ ⦃x : External⦄ {R T : Type 0} (table : Tables → List R) (value : R → Column → Value)
    (comparison : ConvenienceFilter → Result Comparison) (sorted : List R → List R)
    (convert : R → T) where
  -- SELECT … FROM table WHERE … ORDER BY … LIMIT $count OFFSET $(count + 1)
  pub select_page : Where → ℤ × ℤ → Tables → Result (List R)
  unfolding clip
  select_page w (offset, limit) t =
      let args = w.args ++ int limit ∷ int offset ∷ [] in
      clip (argument args w.count) (argument args (w.count + 1))
        (sorted (select (all_hold value args w.clauses) (table t)))

  unfoldable pub find_all :
      Option ℤ → Option ℤ → Option Text → Option Text → List ConvenienceFilter → Exec Db (Page T)
  unfolding select_page
  find_all first last after before filter = do
    total ← count table value comparison filter
    w ← lift (transform comparison empty_where filter)
    window ← lift (compute_page first last after before total)
    rows ← query (select_page w window)
    pure (record { rows = map convert rows; total = total; offset = window.0 })
