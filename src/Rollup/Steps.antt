-- ===== src/Rollup/Steps.antt =====
-- The operations of internal/model as a step relation: any operation with any arguments, whether it
-- succeeds or not, and any change of the database by another component between two operations.
use cartesi_rollups_hl_graph.Base.{ℕ, Bool, Text}
use cartesi_rollups_hl_graph.External.{Address, External}
use cartesi_rollups_hl_graph.Store.{Db}
use cartesi_rollups_hl_graph.Rollup.State.{NonodoModel}
use cartesi_rollups_hl_graph.Rollup.Operations

pub data Step ⦃x : External⦄ : NonodoModel → NonodoModel → Type 0 where
  add_advance_input :
      (m : NonodoModel) (sender : Address) (payload : Text) (block_number timestamp index : ℕ)
      → Step m (Operations.add_advance_input sender payload block_number timestamp index m).1
  add_inspect_input :
      (m : NonodoModel) (payload : Text) → Step m (Operations.add_inspect_input payload m).1
  finish_and_get_next :
      (m : NonodoModel) (accepted : Bool) → Step m (Operations.finish_and_get_next accepted m).1
  sequencer_finish_and_get_next :
      (m : NonodoModel) (accept : Bool)
      → Step m (Operations.sequencer_finish_and_get_next accept m).1
  add_voucher :
      (m : NonodoModel) (destination : Address) (payload : Text)
      → Step m (Operations.add_voucher destination payload m).1
  add_voucher_with_input :
      (m : NonodoModel) (destination : Address) (payload : Text) (input_index : ℕ)
      → Step m (Operations.add_voucher_with_input destination payload input_index m).1
  add_notice : (m : NonodoModel) (payload : Text) → Step m (Operations.add_notice payload m).1
  add_notice_with_input :
      (m : NonodoModel) (payload : Text) (input_index : ℕ)
      → Step m (Operations.add_notice_with_input payload input_index m).1
  add_report : (m : NonodoModel) (payload : Text) → Step m (Operations.add_report payload m).1
  register_exception :
      (m : NonodoModel) (payload : Text) → Step m (Operations.register_exception payload m).1
  database_changes : (m : NonodoModel) (db : Db) → Step m (record m { db = db })

pub data Reach ⦃x : External⦄ (m : NonodoModel) : NonodoModel → Type 0 where
  here : Reach m m
  next : {n k : NonodoModel} → Reach m n → Step n k → Reach m k
