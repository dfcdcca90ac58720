-- ===== src/Process/Drain.antt =====
-- The second loop of `RunWalletSync` in pkg/wallet_sync/wallet_sync.go, on the queue: what its ticks
-- hand on, while nothing is appended.
use tax_bro.Prelude.{
  ℕ, zero, suc, ◌≤◌, ◌≡◌, refl, sym, ap, ◌∙◌, false, List, [], ◌∷◌, ◌++◌, All, length, select,
  select-append, flat_map, flat_map-append, ◌==◌, if◌then◌else◌, Outcome, ok, ◌>>=◌, arith,
}
use tax_bro.Prelude.Int.{ℤ, eq_int}
use tax_bro.Queue.{MsgQueue}
use tax_bro.Update.{Msg, Update, no_wallet}
use tax_bro.Process.{process_messages}
use tax_bro.Process.Batch.{transactions_of, signatures_ids_of, ne_test}
use tax_bro.Process.Results.{
  of_wallet, process_messages-shorter, process_messages-empty, process_messages-All,
}
use tax_bro.Process.Schedule.{HasWallet, of_update, delivered}

-- The updates that so many ticks hand on to `saveTransactions` and `updateUser`, in order. An update
-- without a wallet is skipped.
unfoldable pub drain : ℕ → MsgQueue Msg → Outcome (MsgQueue Msg × List Update)
drain zero queue = ok (queue, [])
drain (suc ticks) queue = do
  (queue', u) ← process_messages queue
  (left, updates) ← drain ticks queue'
  ok (left, if u.wallet_id == no_wallet then updates else u ∷ updates)

-- What updates hand on for a wallet is what the messages hold for it.
abbrev pub Delivers : List Update → List Msg → Type 0
Delivers updates items =
    (w : ℤ)
    → (flat_map (λ u. u.transactions) (select (of_update w) updates)
        ≡ flat_map transactions_of (select (of_wallet w) items))
      × (flat_map (λ u. u.signatures_ids) (select (of_update w) updates)
          ≡ flat_map signatures_ids_of (select (of_wallet w) items))

module _ {B : Type 0} (f : Msg → List B) (g : Update → List B) where
  joined :
      (w : ℤ) (u : Update) (updates : List Update) (items left : List Msg)
      → flat_map f (select (of_wallet w) items)
        ≡ flat_map g (select (of_update w) (u ∷ [])) ++ flat_map f (select (of_wallet w) left)
      → flat_map g (select (of_update w) updates) ≡ flat_map f (select (of_wallet w) left)
      → flat_map g (select (of_update w) (u ∷ updates)) ≡ flat_map f (select (of_wallet w) items)
  joined w u updates items left one rest =
      ap (flat_map g) (select-append (of_update w) (u ∷ []) updates)
      ∙ flat_map-append g (select (of_update w) (u ∷ [])) (select (of_update w) updates)
      ∙ ap (λ l. flat_map g (select (of_update w) (u ∷ [])) ++ l) rest
      ∙ sym one

drain-nothing : (n : ℕ) → drain n (record { items = [] }) ≡ ok (record { items = [] }, [])
unfolding drain
drain-nothing zero = refl
drain-nothing (suc n) = rw (process_messages-empty, drain-nothing n) refl

-- As many ticks as the queue has messages empty it, if nothing is appended and every message has a
-- wallet; and the updates that they hand on hold, for each wallet, exactly the transactions and the
-- saved signatures of its messages, in order.
pub drain_lem :
    (n : ℕ) (items : List Msg)
    → All HasWallet items
    → length items ≤ n
    → (updates : List Update) × (drain n (record { items = items })
        ≡ ok (record { items = [] }, updates))
      × Delivers updates items
unfolding drain
drain_lem n [] valid enough = ([], drain-nothing n, λ w. (refl, refl))
drain_lem zero (m ∷ ms) valid enough = absurd (omega arith)
drain_lem (suc n) (m ∷ ms) valid enough =
    let (q, u, done, shorter, own) = process_messages-shorter m ms valid.0 in
    let left_valid = process_messages-All HasWallet (record { items = m ∷ ms }) q u done valid in
    let (updates, drained, delivers) = drain_lem n q.items left_valid (omega arith) in
    let skipped : (u.wallet_id == no_wallet) ≡ false =
      ne_test u.wallet_id no_wallet (λ e. valid.0 (sym own ∙ e)) in
    (
      u ∷ updates,
      rw (done, drained, skipped) refl,
      λ w. (
        joined transactions_of (λ u. u.transactions) w u updates (m ∷ ms) q.items
            (delivered transactions_of (λ u. u.transactions) (λ v ms. refl) refl w (m ∷ ms) q u
              valid done)
            (delivers w).0,
        joined signatures_ids_of (λ u. u.signatures_ids) w u updates (m ∷ ms) q.items
            (delivered signatures_ids_of (λ u. u.signatures_ids) (λ v ms. refl) refl w (m ∷ ms) q u
              valid done)
            (delivers w).1,
      ),
    )
