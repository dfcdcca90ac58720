-- ===== src/Sync/Loops/Delivered.antt =====
-- A whole sync by the first goroutine of `RunWalletSync` in pkg/wallet_sync/wallet_sync.go, and what
-- the queue has behind it.
use tax_bro.Prelude.{not, List, [], ◌∷◌, ◌++◌, map, String, eq_string, select}
use tax_bro.Rpc.{OnchainTransaction}
use tax_bro.Db.{Store}
use tax_bro.Db.Transactions.{Transaction, is_stored}
use tax_bro.Update.{Msg, last}
use tax_bro.Process.Schedule.{Run}
use tax_bro.Sync.{Services, saved_message, onchain_message}
use tax_bro.Sync.Store.{SyncWalletRequest}
use tax_bro.Sync.Loops.{Loops}

-- A run whose queue has more messages at its end.
abbrev pub extended : Run → List Msg → Run
extended run msgs = record run {
  queue = record { items = run.queue.items ++ msgs };
  produced = run.produced ++ msgs;
}

module _ (services : Services) (req : SyncWalletRequest) where
  -- The messages of a sync of one page: its stored transactions, its fetched ones, its first
  -- signature.
  abbrev pub page_messages :
      (String → OnchainTransaction) → List Transaction → String → List String → List Msg
  page_messages fetched stored s signatures =
      map (saved_message services req) stored
      ++ map (λ v. onchain_message services req (fetched v))
          (select (λ v. not (is_stored stored v)) (s ∷ signatures))
      ++ last (record { wallet_id = req.wallet_id; signature = s }) ∷ []
