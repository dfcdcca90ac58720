-- ===== src/Sync/Loops/Queued.antt =====
-- The two goroutines of `RunWalletSync` in pkg/wallet_sync/wallet_sync.go on their queue.
use tax_bro.Prelude.{ℕ, ◌≡◌, List, String, ok, >>=-eq-ok, ok-injective, Fallible}
use tax_bro.Db.{Store}
use tax_bro.Update.Save.{save_transactions}
use tax_bro.Update.User.{link_signatures, set_last_signature, link_accounts}
use tax_bro.Process.{process_messages}
use tax_bro.Process.Schedule.{Run, initial, processes, Reach, here, next}
use tax_bro.Sync.Store.{SyncStore}
use tax_bro.Sync.Dedup.{deduplicate_timestamps}
use tax_bro.Sync.Produced.{appends-Reach}
use tax_bro.Sync.Loops.{
  Saver, processing, saving, linking, setting_last, linking_accounts, deduplicating, Loops, started,
  save, Step, fetches, saves, Runs, begin, go,
}
use tax_bro.Sync.Loops.Calls.{HasWallets, OfWallets, fetch-Made}

module _ (db : Store) (sync : SyncStore db) (wallets : HasWallets db sync) where
  save-Reach :
      (iterate : List String → List String) (get_block : ℕ → ℕ → Fallible (List String)) (fuel : ℕ)
      (saver : Saver) (run : Run) (st : db.State) {r : Saver × Run × db.State}
      → save db sync iterate get_block fuel saver run st ≡ ok r
      → Reach initial run
      → Reach initial r.1
  save-Reach iterate get_block fuel processing run st e h =
      let ((queue, u), done, e₁) = >>=-eq-ok (process_messages run.queue) _ e in
      rw (← ok-injective e₁) (next h (processes run queue u done))
  save-Reach iterate get_block fuel (saving u) run st e h =
      let ((u', st'), done, e₁) = >>=-eq-ok (save_transactions db iterate u st) _ e in
      rw (← ok-injective e₁) h
  save-Reach iterate get_block fuel (linking u) run st e h =
      let (st', done, e₁) = >>=-eq-ok (link_signatures db u st) _ e in rw (← ok-injective e₁) h
  save-Reach iterate get_block fuel (setting_last u) run st e h =
      let (st', done, e₁) = >>=-eq-ok (set_last_signature db u st) _ e in rw (← ok-injective e₁) h
  save-Reach iterate get_block fuel (linking_accounts u) run st e h =
      let (st', done, e₁) = >>=-eq-ok (link_accounts db u st) _ e in rw (← ok-injective e₁) h
  save-Reach iterate get_block fuel deduplicating run st e h =
      let (st', done, e₁) = >>=-eq-ok (deduplicate_timestamps get_block fuel db sync fuel st) _ e in
      rw (← ok-injective e₁) h

  Step-Queued :
      {s t : Loops db}
      → Step db sync s t
      → OfWallets s.fetcher × Reach initial s.run
      → OfWallets t.fetcher × Reach initial t.run
  Step-Queued (fetches s services attempts fetcher run st e) h =
      let made = fetch-Made db sync services attempts s.fetcher s.run s.st e in
      let (own, valid) = made.valid wallets h.0 in
      (own, rw made.same (appends-Reach made.calls h.1 valid))
  Step-Queued (saves s iterate get_block fuel saver run st e) h =
      (h.0, save-Reach iterate get_block fuel s.saver s.run s.st e h.1)

  Runs-Queued :
      (st : db.State) {s : Loops db}
      → Runs db sync (started db st) s
      → OfWallets s.fetcher × Reach initial s.run
  Runs-Queued st begin = (tt, here)
  Runs-Queued st (go r step) = Step-Queued step (Runs-Queued st r)

  -- However the steps of the two goroutines interleave, and whatever the RPC client and the database
  -- answer, what they do to the queue is a run of its schedule, if the requests of the database are
  -- for wallets.
  pub Runs-Reach :
      (st : db.State) {s : Loops db} → Runs db sync (started db st) s → Reach initial s.run
  Runs-Reach st r = (Runs-Queued st r).1
