-- ===== src/Sync/Loops/Once.antt =====
-- How `RunWalletSync` of pkg/wallet_sync/wallet_sync.go goes on behind its first batch.
use tax_bro.Prelude.{
  ℕ, ◌≤◌, ◌≡◌, refl, not, Bool-cases, inl, inr, List, [], ◌∷◌, ◌++◌, String, select, select-append,
  length, ◌==◌, if◌then◌else◌, ok, >>=-eq-ok, ok-injective, error, Fallible, arith,
}
use tax_bro.Prelude.Int.{eq_int}
use tax_bro.Db.{Store}
use tax_bro.Update.{Update, no_wallet}
use tax_bro.Update.Save.{save_transactions}
use tax_bro.Update.User.{link_signatures, set_last_signature, link_accounts}
use tax_bro.Process.{process_messages}
use tax_bro.Process.Schedule.{Run}
use tax_bro.Sync.{Append, one, many}
use tax_bro.Sync.Store.{SyncStore}
use tax_bro.Sync.Dedup.{deduplicate_timestamps}
use tax_bro.Sync.Produced.{produce}
use tax_bro.Sync.Loops.{
  Saver, processing, saving, linking, setting_last, linking_accounts, deduplicating, Loops, started,
  save, Step, fetches, saves, Runs, begin, go,
}
use tax_bro.Sync.Loops.Calls.{fetch-Made}

-- The updates that are handed on to `saveTransactions`.
abbrev pub handed : List Update → List Update
handed updates = select (λ u. not (u.wallet_id == no_wallet)) updates

produce-updates : (calls : List Append) (run : Run) → (produce run calls).updates ≡ run.updates
produce-updates [] run = refl
produce-updates (one m ∷ calls) run = produce-updates calls _
produce-updates (many ms ∷ calls) run = produce-updates calls _

-- Before a batch nothing was handed on, and behind it one update.
abbrev IsFirst : Saver → List Update → Type 0
IsFirst processing updates = handed updates ≡ []
IsFirst _ updates = length (handed updates) ≤ 1

IsFirst-few :
    (saver : Saver) (updates : List Update) → IsFirst saver updates → length (handed updates) ≤ 1
IsFirst-few processing updates h = rw h (omega arith)
IsFirst-few (saving u) updates h = h
IsFirst-few (linking u) updates h = h
IsFirst-few (setting_last u) updates h = h
IsFirst-few (linking_accounts u) updates h = h
IsFirst-few deduplicating updates h = h

handed-IsFirst :
    (updates : List Update) (u : Update)
    → handed updates ≡ []
    → IsFirst (if u.wallet_id == no_wallet then processing else saving u) (updates ++ u ∷ [])
handed-IsFirst updates u h = elim (Bool-cases (u.wallet_id == no_wallet)) [
  | inl none ↦ rw none (rw (select-append, h, none) refl)
  | inr some ↦ rw some (rw (select-append, h, some) (omega arith))
]

module _ (db : Store) (sync : SyncStore db)
    (refused : (st : db.State) → sync.select_same_time st ≡ error) where
  save-IsFirst :
      (iterate : List String → List String) (get_block : ℕ → ℕ → Fallible (List String)) (fuel : ℕ)
      (saver : Saver) (run : Run) (st : db.State) {r : Saver × Run × db.State}
      → save db sync iterate get_block fuel saver run st ≡ ok r
      → IsFirst saver run.updates
      → IsFirst r.0 r.1.updates
  unfolding deduplicate_timestamps
  save-IsFirst iterate get_block fuel processing run st e h =
      let ((queue, u), done, e₁) = >>=-eq-ok (process_messages run.queue) _ e in
      rw (← ok-injective e₁) (handed-IsFirst run.updates u h)
  save-IsFirst iterate get_block fuel (saving u) run st e h =
      let ((u', st'), done, e₁) = >>=-eq-ok (save_transactions db iterate u st) _ e in
      rw (← ok-injective e₁) h
  save-IsFirst iterate get_block fuel (linking u) run st e h =
      let (st', done, e₁) = >>=-eq-ok (link_signatures db u st) _ e in rw (← ok-injective e₁) h
  save-IsFirst iterate get_block fuel (setting_last u) run st e h =
      let (st', done, e₁) = >>=-eq-ok (set_last_signature db u st) _ e in rw (← ok-injective e₁) h
  save-IsFirst iterate get_block fuel (linking_accounts u) run st e h =
      let (st', done, e₁) = >>=-eq-ok (link_accounts db u st) _ e in rw (← ok-injective e₁) h
  save-IsFirst iterate get_block fuel deduplicating run st e h =
      let impossible = rw (refused st) at e in cc

  Step-IsFirst :
      {s t : Loops db}
      → Step db sync s t
      → IsFirst s.saver s.run.updates
      → IsFirst t.saver t.run.updates
  Step-IsFirst (fetches s services attempts fetcher run st e) h =
      let made = fetch-Made db sync services attempts s.fetcher s.run s.st e in
      rw (made.same, produce-updates made.calls s.run) h
  Step-IsFirst (saves s iterate get_block fuel saver run st e) h =
      save-IsFirst iterate get_block fuel s.saver s.run s.st e h

  Runs-IsFirst :
      (st : db.State) {s : Loops db}
      → Runs db sync (started db st) s
      → IsFirst s.saver s.run.updates
  Runs-IsFirst st begin = refl
  Runs-IsFirst st (go r step) = Step-IsFirst step (Runs-IsFirst st r)

  -- If the database library refuses the select of `deduplicateTimestamps`, which is given a slice
  -- and not a pointer, the process hands on at most one update in its life, however long it runs.
  pub handed_bounds :
      (st : db.State) {s : Loops db}
      → Runs db sync (started db st) s
      → length (handed s.run.updates) ≤ 1
  handed_bounds st {s} r = IsFirst-few s.saver s.run.updates (Runs-IsFirst st r)
