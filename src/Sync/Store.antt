-- ===== src/Sync/Store.antt =====
-- The statements of the two loops of pkg/wallet_sync that are not of `saveTransactions`,
-- `updateUser` and `transactions.Get`.
use tax_bro.Prelude.{List, String, Option, Fallible}
use tax_bro.Prelude.Int.{ℤ}
use tax_bro.Db.{Store}

pub record SyncWalletRequest : Type 0 where
  pub wallet_id : ℤ
  pub wallet_address : String
  pub last_signature : Option String

pub record SignatureWithBlockIndex : Type 0 where
  pub signature : String
  pub block_index : ℤ

-- One operation for each statement: the select of `load`, at most one row, the update of
-- `updateStatus`, and the select and the update of `deduplicateTimestamps`. The rows of the second
-- select cannot reach the caller, since the slice is passed by value: only its error is seen.
pub record SyncStore (db : Store) : Type 0 where
  pub select_queued : db.State → Fallible (List SyncWalletRequest)
  pub set_processing : ℤ → db.State → Fallible db.State
  pub select_same_time : db.State → Fallible (Unit {0})
  pub set_block_indexes : List SignatureWithBlockIndex → db.State → Fallible db.State
