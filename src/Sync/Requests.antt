-- ===== src/Sync/Requests.antt =====
-- `syncWalletRequest.updateStatus` and `syncWalletQueue.load` of pkg/wallet_sync/db.go.
use tax_bro.Prelude.{List, ◌||◌, String, eq_string, ◌==◌, Outcome, assert, ◌>>◌, must}
use tax_bro.Db.{Store}
use tax_bro.Sync.Store.{SyncWalletRequest, SyncStore}

module _ (db : Store) (sync : SyncStore db) where
  -- The status is checked, but the statement always stores 'processing'.
  unfoldable pub update_status : SyncWalletRequest → String → db.State → Outcome db.State
  update_status req status st = do
    assert (status == "processing" || status == "done")
    must (sync.set_processing req.wallet_id st)

  -- `Select` replaces the queue with the rows.
  unfoldable pub load : db.State → Outcome (List SyncWalletRequest)
  load st = must (sync.select_queued st)
