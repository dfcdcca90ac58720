-- ===== src/Tests/Loops.antt =====
-- Both goroutines of `RunWalletSync` in pkg/wallet_sync/wallet_sync.go, over the database in memory:
-- a request is taken, a page with one stored and one new signature is read, and the stored one is
-- taken off the queue and linked while the new one is not fetched yet. And the whole page, while the
-- second goroutine stands still.
use tax_bro.Prelude.{
  ℕ, ◌≤◌, ◌≡◌, refl, true, List, [], ◌∷◌, length, none, String, Fallible, value, error,
}
use tax_bro.Prelude.Int.{pos}
use tax_bro.Update.{Msg, Update, saved, no_wallet}
use tax_bro.Update.User.Counts.{IsBalanced}
use tax_bro.Process.Schedule.{Run, initial}
use tax_bro.Sync.{Services}
use tax_bro.Sync.Store.{SyncStore}
use tax_bro.Sync.Loops.{
  Fetcher, processing, Pages, starting, paging, reading, saving, linking, setting_last,
  linking_accounts, deduplicating, Loops, started, fetches, saves, Runs, begin, go,
}
use tax_bro.Sync.Loops.Once.{handed, handed_bounds}
use tax_bro.Sync.Loops.Calls.{HasWallets}
use tax_bro.Sync.Loops.Balanced.{IsSyncing, Runs-IsBalanced}
use tax_bro.Tests.Memory.{
  Rows, memory, memory-IsCounting, memory-IsSaving, counts, unchanged, empty_rows,
}
use tax_bro.Sync.Loops.Delivered.{page_messages}
use tax_bro.Tests.Pages.{request, stored, services, fetched_as}

-- The library refuses the select into a slice.
abbrev sync : SyncStore memory
sync = record {
  select_queued = λ st. value (request ∷ []);
  set_processing = λ w st. value st;
  select_same_time = λ st. error;
  set_block_indexes = λ rows st. value st;
}

abbrev pages : Pages
pages = record {
  req = request;
  account = "wallet";
  opts = record { limit = 100; until = none };
  new_last_signature = "";
}

abbrev pages_read : Pages
pages_read = record pages { new_last_signature = "sig" }

abbrev old_message : Msg
old_message = saved (record { wallet_id = pos 1; signature_id = pos 8; accounts = [] })

abbrev one_saved : Run
one_saved = record {
  queue = record { items = old_message ∷ [] };
  produced = old_message ∷ [];
  updates = [];
}

abbrev batch : Update
batch = record {
  wallet_id = pos 1;
  transactions = [];
  signatures_ids = pos 8 ∷ [];
  associated_accounts = [];
  last_signature = "";
}

abbrev one_taken : Run
one_taken = record {
  queue = record { items = [] };
  produced = old_message ∷ [];
  updates = batch ∷ [];
}

abbrev linked_rows : Rows
linked_rows = record {
  links = tax_bro.Update.User.Counts.at_wallet (λ w. 0) (pos 1) 1;
  counter = tax_bro.Update.User.Counts.at_wallet (λ w. 0) (pos 1) 1;
  account_links = λ w. 0;
  account_counter = λ w. 0;
}

abbrev taken : Loops memory
taken = record {
  fetcher = reading pages_read true stored ("sig" ∷ "old" ∷ []);
  saver = saving batch;
  run = one_taken;
  st = empty_rows;
}

abbrev linked : Loops memory
linked = record taken { saver = deduplicating; st = linked_rows }

abbrev in_order : List String → List String
in_order keys = keys

abbrev get_block : ℕ → ℕ → Fallible (List String)
get_block slot attempt = error

taken-Runs : Runs memory sync (started memory empty_rows) taken
unfolding tax_bro.Sync.Requests.load tax_bro.Sync.Requests.update_status
    tax_bro.Rpc.Retry.call_rpc_with_retries tax_bro.Db.Transactions.get_transactions
    tax_bro.Db.Transactions.add_results tax_bro.Process.process_messages tax_bro.Sync.saved_message
    tax_bro.Queue.append tax_bro.Queue.append_messages tax_bro.Queue.new_msg_queue
taken-Runs =
    go
      (go
        (go (go begin (fetches _ services 9 (starting request) initial empty_rows refl))
          (fetches _ services 9 (paging pages) initial empty_rows refl))
        (fetches _ services 9 (reading pages_read true stored ("sig" ∷ "old" ∷ [])) one_saved
          empty_rows refl))
      (saves _ in_order get_block 9 (saving batch) one_taken empty_rows refl)

linked-Runs : Runs memory sync (started memory empty_rows) linked
unfolding tax_bro.Update.User.link_signatures tax_bro.Update.User.set_last_signature
    tax_bro.Update.User.link_accounts tax_bro.Update.Save.save_transactions
    tax_bro.Db.save_signatures tax_bro.Db.save_accounts
    tax_bro.Update.Prepare.prepare_insertable_components tax_bro.Update.Prepare.prepare_transactions
    tax_bro.Update.Save.insert_components
linked-Runs =
    go
      (go
        (go (go taken-Runs (saves _ in_order get_block 9 (linking batch) one_taken empty_rows refl))
          (saves _ in_order get_block 9 (setting_last batch) one_taken linked_rows refl))
        (saves _ in_order get_block 9 (linking_accounts batch) one_taken linked_rows refl))
      (saves _ in_order get_block 9 deduplicating one_taken linked_rows refl)

handed_bounds_example : length (handed (batch ∷ [])) ≤ 1
handed_bounds_example = handed_bounds memory sync (λ st. refl) empty_rows linked-Runs

sync-HasWallets : HasWallets memory sync
sync-HasWallets st queue e = let same : request ∷ [] ≡ queue = cc in rw (← same) ((λ h. cc), tt)

sync-IsSyncing : IsSyncing memory counts sync
sync-IsSyncing = record { processing_set = λ w st st' e. unchanged (cc) }

Runs-IsBalanced_example : IsBalanced memory counts linked_rows
Runs-IsBalanced_example =
    Runs-IsBalanced memory sync counts memory-IsCounting memory-IsSaving sync-IsSyncing
      sync-HasWallets empty_rows (λ v. (refl, refl)) linked-Runs

abbrev at_fetcher : Fetcher → Run → Loops memory
at_fetcher fetcher run = record {
  fetcher = fetcher;
  saver = processing;
  run = run;
  st = empty_rows;
}

abbrev delivered : List Msg
delivered = page_messages services request fetched_as stored "sig" ("old" ∷ [])
