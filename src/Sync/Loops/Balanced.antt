-- ===== src/Sync/Loops/Balanced.antt =====
-- The wallets' counters under the two goroutines of `RunWalletSync` in
-- pkg/wallet_sync/wallet_sync.go.
use tax_bro.Prelude.{
  ℕ, ◌≤◌, ◌≡◌, Bool-cases, inl, inr, List, [], ◌∷◌, All, All-append, String, length, ◌==◌,
  if◌then◌else◌, ok, >>=-eq-ok, ok-injective, must, must-eq-ok, value, Fallible, arith,
}
use tax_bro.Prelude.Int.{ℤ, eq_int}
use tax_bro.Db.{Store}
use tax_bro.Queue.{MsgQueue, append, append_messages, new_msg_queue}
use tax_bro.Update.{Msg, Update, no_wallet}
use tax_bro.Update.Save.{save_transactions}
use tax_bro.Update.Save.Counted.{save_transactions-IsBalanced}
use tax_bro.Update.User.{link_signatures, set_last_signature, link_accounts}
use tax_bro.Update.User.Counter.{
  link_signatures-IsBalanced, set_last_signature-IsBalanced, link_accounts-IsBalanced,
}
use tax_bro.Update.User.Counts.{
  Counts, SameCounts, IsCounting, IsSaving, IsBalanced, SameCounts-IsBalanced,
}
use tax_bro.Process.{process_messages}
use tax_bro.Process.Results.{process_messages-bounds, process_messages-All}
use tax_bro.Process.Schedule.{Run, HasWallet, Reach-IsInOrder}
use tax_bro.Sync.{Append, one, many, Services}
use tax_bro.Sync.Store.{SyncWalletRequest, SyncStore}
use tax_bro.Sync.Requests.{update_status, load}
use tax_bro.Sync.Dedup.{deduplicate_timestamps}
use tax_bro.Sync.Produced.{appended, produce}
use tax_bro.Sync.Loops.{
  Fetcher, idle, starting, paging, reading, Saver, processing, saving, linking, setting_last,
  linking_accounts, deduplicating, Loops, started, started_pages, get_page, read, take_request,
  fetch, save, fetches, saves, Runs, begin, go,
}
use tax_bro.Sync.Loops.Bare.{IsBare, process_messages-IsBare}
use tax_bro.Sync.Loops.Calls.{HasWallets, fetch-Made}
use tax_bro.Sync.Loops.Queued.{Runs-Reach}

-- The two loops' own updates leave the links and the counters alone.
pub record IsSyncing (db : Store) (c : Counts db) (sync : SyncStore db) : Type 0 where
  pub processing_set :
      (w : ℤ) (st st' : db.State) → sync.set_processing w st ≡ value st' → SameCounts c st st'

-- What the second goroutine holds is a batch of at most 21 saved and 21 new signatures.
abbrev IsSmall : Saver → Type 0
IsSmall processing = Unit
IsSmall (saving u) =
    (length u.signatures_ids ≤ 21) × (length u.transactions ≤ 21) × (u.associated_accounts ≡ [])
IsSmall (linking u) = (length u.signatures_ids ≤ 42) × (u.associated_accounts ≡ [])
IsSmall (setting_last u) = u.associated_accounts ≡ []
IsSmall (linking_accounts u) = u.associated_accounts ≡ []
IsSmall deduplicating = Unit

produce-IsBare :
    (calls : List Append) (run : Run)
    → All IsBare run.queue.items
    → All (λ a. All IsBare (appended a)) calls
    → All IsBare (produce run calls).queue.items
unfolding append append_messages
produce-IsBare [] run h own = h
produce-IsBare (one m ∷ calls) run h own =
    produce-IsBare calls _ (All-append IsBare run.queue.items (m ∷ []) h own.0) own.1
produce-IsBare (many ms ∷ calls) run h own =
    produce-IsBare calls _ (All-append IsBare run.queue.items ms h own.0) own.1

batch-IsSmall :
    (queue queue' : MsgQueue Msg) (u : Update)
    → All HasWallet queue.items
    → All IsBare queue.items
    → process_messages queue ≡ ok (queue', u)
    → IsSmall (if u.wallet_id == no_wallet then processing else saving u)
batch-IsSmall queue queue' u valid bare e =
    let (q, v, taken, done, perm, own, saved_ids, accounts, ids, txs) =
      process_messages-bounds queue in
    let same : v ≡ u = cc in
    elim (Bool-cases (u.wallet_id == no_wallet)) [
      | inl none ↦ rw none tt
      | inr some ↦
          rw some
            (rw same at ids, rw same at txs, process_messages-IsBare queue queue' u valid bare e)
    ]

module _ (db : Store) (sync : SyncStore db) (c : Counts db) (count : IsCounting db c)
    (saves_law : IsSaving db c) (law : IsSyncing db c sync) where
  take_request-IsBalanced :
      (queue : List SyncWalletRequest) (st : db.State) {r : Fetcher × db.State}
      → take_request db sync queue st ≡ ok r
      → IsBalanced db c st
      → IsBalanced db c r.1
  unfolding update_status
  take_request-IsBalanced [] st e b = rw (← ok-injective e) b
  take_request-IsBalanced (req ∷ queue) st e b =
      let (st', marked, e₁) = >>=-eq-ok (update_status db sync req "processing" st) _ e in
      rw (← ok-injective e₁) (
        SameCounts-IsBalanced db c (law.processing_set req.wallet_id st st' (must-eq-ok _ marked))
          b)

  fetch-IsBalanced :
      (services : Services) (attempts : ℕ) (fetcher : Fetcher) (run : Run) (st : db.State)
      {r : Fetcher × Run × db.State}
      → fetch db sync services attempts fetcher run st ≡ ok r
      → IsBalanced db c st
      → IsBalanced db c r.2
  fetch-IsBalanced services attempts idle run st e b =
      let (queue, loaded, e₁) = >>=-eq-ok (load db sync st) _ e in
      let ((fetcher, st'), taken, e₂) = >>=-eq-ok (take_request db sync queue st) _ e₁ in
      rw (← ok-injective e₂) (take_request-IsBalanced queue st taken b)
  fetch-IsBalanced services attempts (starting req) run st e b =
      let (fetcher, begun, e₁) = >>=-eq-ok (started_pages services attempts req) _ e in
      rw (← ok-injective e₁) b
  fetch-IsBalanced services attempts (paging p) run st e b =
      let ((fetcher, run'), got, e₁) = >>=-eq-ok (get_page services attempts p run) _ e in
      rw (← ok-injective e₁) b
  fetch-IsBalanced services attempts (reading p short stored signatures) run st e b =
      let ((fetcher, run'), got, e₁) =
        >>=-eq-ok (read services attempts p short stored signatures run) _ e in
      rw (← ok-injective e₁) b

  -- What holds between two steps of the second goroutine.
  abbrev IsKept : Saver → Run → db.State → Type 0
  IsKept saver run st = IsSmall saver × All IsBare run.queue.items × IsBalanced db c st

  save-IsKept :
      (iterate : List String → List String) (get_block : ℕ → ℕ → Fallible (List String)) (fuel : ℕ)
      (saver : Saver) (run : Run) (st : db.State) {r : Saver × Run × db.State}
      → save db sync iterate get_block fuel saver run st ≡ ok r
      → All HasWallet run.queue.items
      → IsKept saver run st
      → IsKept r.0 r.1 r.2
  unfolding deduplicate_timestamps
  save-IsKept iterate get_block fuel processing run st e valid (small, bare, b) =
      let ((queue, u), done, e₁) = >>=-eq-ok (process_messages run.queue) _ e in
      rw (← ok-injective e₁) (
        batch-IsSmall run.queue queue u valid bare done,
        process_messages-All IsBare run.queue queue u done bare,
        b,
      )
  save-IsKept iterate get_block fuel (saving u) run st e valid ((ids, txs, none), bare, b) =
      let ((u', st'), done, e₁) = >>=-eq-ok (save_transactions db iterate u st) _ e in
      let (b', few, same) = save_transactions-IsBalanced db c count saves_law iterate u st done b in
      rw (← ok-injective e₁) ((omega arith, rw same none), bare, b')
  save-IsKept iterate get_block fuel (linking u) run st e valid ((ids, none), bare, b) =
      let (st', done, e₁) = >>=-eq-ok (link_signatures db u st) _ e in
      rw (← ok-injective e₁)
        (none, bare, link_signatures-IsBalanced db c count u st st' (omega arith) done b)
  save-IsKept iterate get_block fuel (setting_last u) run st e valid (none, bare, b) =
      let (st', done, e₁) = >>=-eq-ok (set_last_signature db u st) _ e in
      rw (← ok-injective e₁) (none, bare, set_last_signature-IsBalanced db c count u st st' done b)
  save-IsKept iterate get_block fuel (linking_accounts u) run st e valid (none, bare, b) =
      let (st', done, e₁) = >>=-eq-ok (link_accounts db u st) _ e in
      rw (← ok-injective e₁)
        (tt, bare, link_accounts-IsBalanced db c count u st st' (rw none (omega arith)) done b)
  save-IsKept iterate get_block fuel deduplicating run st e valid (small, bare, b) =
      let (st', done, e₁) = >>=-eq-ok (deduplicate_timestamps get_block fuel db sync fuel st) _ e in
      let (seen, selected, same) = >>=-eq-ok (must (sync.select_same_time st)) _ done in
      rw (← ok-injective e₁, ← ok-injective same) (tt, bare, b)

  module _ (wallets : HasWallets db sync) where
    Runs-IsKept :
        (st : db.State) {s : Loops db}
        → IsBalanced db c st
        → Runs db sync (started db st) s
        → IsKept s.saver s.run s.st
    unfolding new_msg_queue
    Runs-IsKept st b begin = (tt, tt, b)
    Runs-IsKept st b (go r (fetches s services attempts fetcher run st' e)) =
        let (small, bare, b') = Runs-IsKept st b r in
        let made = fetch-Made db sync services attempts s.fetcher s.run s.st e in
        (
          small,
          rw made.same (produce-IsBare made.calls s.run bare made.bare),
          fetch-IsBalanced services attempts s.fetcher s.run s.st e b',
        )
    Runs-IsKept st b (go r (saves s iterate get_block fuel saver run st' e)) =
        let in_order = Reach-IsInOrder (Runs-Reach db sync wallets st r) in
        save-IsKept iterate get_block fuel s.saver s.run s.st e in_order.valid (Runs-IsKept st b r)

    -- If each wallet's counters are the numbers of its rows when the process starts, they are so
    -- between any two steps of the two goroutines, however these interleave and whatever the RPC
    -- client answers: also when the process ends in the middle of an update. The requests are for
    -- wallets, and PostgreSQL does with each statement what its documentation says of the counts.
    pub Runs-IsBalanced :
        (st : db.State) {s : Loops db}
        → IsBalanced db c st
        → Runs db sync (started db st) s
        → IsBalanced db c s.st
    Runs-IsBalanced st b r = (Runs-IsKept st b r).2
