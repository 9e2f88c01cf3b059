-- ===== src/Store.antt =====
-- The database under the repositories. A statement's SQL text is read as what SQL says of it on
-- tables that are lists of rows in the order of insertion; the engine itself is outside the
-- repository, so any statement may fail: `faults` says of the statements to come which ones the
-- engine refuses, and at its end none. internal/convenience/repository/sql_executor.go and
-- transaction_helper.go are `exec` and `start_transaction`.
pub mod Table
pub mod Reads
pub mod Keeps
use cartesi_rollups_hl_graph.Base.{
  ℕ, Bool, true, false, Option, none, some, List, [], ◌∷◌, if◌then◌else◌, Result, ok, err, Exec,
  ◌>>◌, pure, Error, db_fault, tx_done, Text,
}
use cartesi_rollups_hl_graph.Data.{CompletionStatus, SynchronizerFetch}

pub record VoucherRow : Type 0 where
  pub destination : Text
  pub payload : Text
  pub input_index : ℕ
  pub output_index : ℕ
  pub executed : Bool
  pub app_contract : Text

pub record NoticeRow : Type 0 where
  pub payload : Text
  pub input_index : ℕ
  pub output_index : ℕ
  pub app_contract : Text

pub record ReportRow : Type 0 where
  pub output_index : ℕ
  pub input_index : ℕ
  pub payload : Text
  pub app_contract : Text

pub record InputRow : Type 0 where
  pub index : ℕ
  pub status : CompletionStatus
  pub msg_sender : Text
  pub payload : Text
  pub block_number : ℕ
  pub block_timestamp : ℕ
  pub prev_randao : Text
  pub exception : Text
  pub app_contract : Text

pub record Tables : Type 0 where
  pub vouchers : List VoucherRow
  pub notices : List NoticeRow
  pub reports : List ReportRow
  pub inputs : List InputRow
  pub fetches : List SynchronizerFetch

-- `tx` is what the open transaction would commit.
pub record Db : Type 0 where
  pub committed : Tables
  pub tx : Option Tables
  pub faults : List Bool

-- A database that will refuse no statement.
abbrev pub calm : Tables → Option Tables → Db
calm t tx = record { committed = t; tx = tx; faults = [] }

-- Whether the context carries the transaction.
pub data Context : Type 0 where
  background with_transaction : Context

abbrev pub next_fault : List Bool → Bool
next_fault [] = false
next_fault (b ∷ bs) = b

abbrev pub later_faults : List Bool → List Bool
later_faults [] = []
later_faults (b ∷ bs) = bs

abbrev pub tick : Db → Db
tick db = record db { faults = later_faults db.faults }

-- A query through `c.Db`, which sees what is committed, also while a transaction is open.
unfoldable pub query : {A : Type 0} → (Tables → Result A) → Exec Db A
query f db = if next_fault db.faults then (err db_fault, tick db) else (f db.committed, tick db)

unfoldable pub write_committed : Result Tables → Exec Db (Unit {0})
write_committed (ok t) db = (ok tt, record db { committed = t })
write_committed (err e) db = (err e, db)

write_pending : Result Tables → Exec Db (Unit {0})
write_pending (ok t) db = (ok tt, record db { tx = some t })
write_pending (err e) db = (err e, db)

exec_pending : (Tables → Result Tables) → Option Tables → Exec Db (Unit {0})
unfolding write_pending
exec_pending f none db = (err tx_done, db)
exec_pending f (some t) db = write_pending (f t) db

-- DBExecutor.ExecContext: the statement goes to the transaction of the context, if there is one.
unfoldable pub exec : Context → (Tables → Result Tables) → Exec Db (Unit {0})
unfolding write_committed exec_pending
exec background f db =
    if next_fault db.faults
    then (err db_fault, tick db)
    else write_committed (f db.committed) (tick db)
exec with_transaction f db =
    if next_fault db.faults then (err db_fault, tick db) else exec_pending f db.tx (tick db)

-- A `for` loop that returns at the first error.
unfoldable pub for_each : {A : Type 0} → (A → Exec Db (Unit {0})) → List A → Exec Db (Unit {0})
for_each f [] = pure tt
for_each f (a ∷ rest) = f a >> for_each f rest

-- StartTransaction: `Beginx`, and the transaction is put into the context.
unfoldable pub start_transaction : Exec Db Context
start_transaction db = if next_fault db.faults then (err db_fault, tick db) else (
  ok with_transaction,
  record db { tx = some db.committed; faults = later_faults db.faults },
)

close_with : Option Tables → Db → Result (Unit {0}) × Db
close_with none db = (err tx_done, db)
close_with (some t) db = (ok tt, record db { committed = t; tx = none })

-- `tx.Commit()`: a failed commit leaves nothing of the transaction.
unfoldable pub commit : Exec Db (Unit {0})
unfolding close_with
commit db =
    if next_fault db.faults
    then (err db_fault, record db { tx = none; faults = later_faults db.faults })
    else close_with db.tx (tick db)

-- `tx.Rollback()`, whose error the code only logs.
unfoldable pub rollback : Db → Db
rollback db = record db { tx = none }
