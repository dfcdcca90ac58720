-- ===== src/Process/Schedule.antt =====
-- The two goroutines of `RunWalletSync` in pkg/wallet_sync/wallet_sync.go share the queue. Its mutex
-- makes each of their calls one step: `fetchAndParse` appends, the other loop processes.
use tax_bro.Prelude.{
  ◌≡◌, refl, sym, ap, subst, ◌∙◌, ◌≢◌, Bool, false, List, [], ◌∷◌, ◌++◌, All, All-append,
  append_assoc, append-nil, flat_map, flat_map-append, select, select-append, ◌==◌, if◌then◌else◌,
  ok, ok-injective, Bool-cases, inl, inr,
}
use tax_bro.Prelude.Int.{ℤ, eq_int, int_eq_iff}
use tax_bro.Queue.{MsgQueue, new_msg_queue, append, append_messages}
use tax_bro.Update.{Msg, Update, no_wallet, empty_update}
use tax_bro.Process.{process_messages}
use tax_bro.Process.Batch.{wallet_of, transactions_of, signatures_ids_of, gathered, start, ne_test}
use tax_bro.Process.Results.{
  of_wallet, process_messages-batch, process_messages-empty, process_messages-All,
}

-- The queue, and what has been appended to it and taken from it so far.
pub record Run : Type 0 where
  pub queue : MsgQueue Msg
  pub produced : List Msg
  pub updates : List Update

abbrev pub initial : Run
initial = record { queue = new_msg_queue; produced = []; updates = [] }

abbrev pub HasWallet : Msg → Type 0
HasWallet m = wallet_of m ≢ no_wallet

pub data Step : Run → Run → Type 0 where
  appends :
      (s : Run) (m : Msg)
      → HasWallet m
      → Step s (record s { queue = append s.queue m; produced = s.produced ++ m ∷ [] })
  appends_all :
      (s : Run) (ms : List Msg)
      → All HasWallet ms
      → Step s (record s { queue = append_messages s.queue ms; produced = s.produced ++ ms })
  processes :
      (s : Run) (q : MsgQueue Msg) (u : Update)
      → process_messages s.queue ≡ ok (q, u)
      → Step s (record s { queue = q; updates = s.updates ++ u ∷ [] })

pub data Reach (s : Run) : Run → Type 0 where
  here : Reach s s
  next : {t u : Run} → Reach s t → Step t u → Reach s u

abbrev pub of_update : ℤ → Update → Bool
of_update w u = u.wallet_id == w

-- The transactions and the saved signatures of a wallet come out of the updates in the order in
-- which they went into the queue, each once; those that are missing are still in the queue.
pub record IsInOrder (s : Run) : Type 0 where
  pub valid : All HasWallet s.queue.items
  pub transactions :
      (w : ℤ)
      → flat_map transactions_of (select (of_wallet w) s.produced)
        ≡ flat_map (λ u. u.transactions) (select (of_update w) s.updates)
          ++ flat_map transactions_of (select (of_wallet w) s.queue.items)
  pub signatures_ids :
      (w : ℤ)
      → flat_map signatures_ids_of (select (of_wallet w) s.produced)
        ≡ flat_map (λ u. u.signatures_ids) (select (of_update w) s.updates)
          ++ flat_map signatures_ids_of (select (of_wallet w) s.queue.items)

module _ {B : Type 0} (f : Msg → List B) where
  append-InOrder :
      (w : ℤ) (produced items ms : List Msg) (out : List B)
      → flat_map f (select (of_wallet w) produced) ≡ out ++ flat_map f (select (of_wallet w) items)
      → flat_map f (select (of_wallet w) (produced ++ ms))
        ≡ out ++ flat_map f (select (of_wallet w) (items ++ ms))
  append-InOrder w produced items ms out h = simp (select-append, flat_map-append, append_assoc, h)

append_all-IsInOrder :
    (s : Run) (ms : List Msg)
    → All HasWallet ms
    → IsInOrder s
    → IsInOrder
        (record s { queue = record { items = s.queue.items ++ ms }; produced = s.produced ++ ms })
append_all-IsInOrder s ms h inv = record {
  valid = All-append HasWallet s.queue.items ms inv.valid h;
  transactions =
      λ w. append-InOrder transactions_of w s.produced s.queue.items ms _ (inv.transactions w);
  signatures_ids =
      λ w. append-InOrder signatures_ids_of w s.produced s.queue.items ms _ (inv.signatures_ids w);
}

own_first :
    (m : Msg) (taken rest : List Msg)
    → (if wallet_of m == wallet_of m then m ∷ taken else []) ++ rest ≡ m ∷ taken ++ rest
own_first m taken rest = rw ((int_eq_iff (wallet_of m) (wallet_of m)).1 refl)

module _ {B : Type 0} (f : Msg → List B) (g : Update → List B)
    (gathers : (v : ℤ) (ms : List Msg) → g (gathered (start v) ms) ≡ flat_map f ms)
    (nothing : g empty_update ≡ []) where
  batch-own :
      (v : ℤ) (batch kept items : List Msg)
      → select (of_wallet v) items ≡ batch ++ select (of_wallet v) kept
      → flat_map f (select (of_wallet v) items)
        ≡ flat_map g (select (of_update v) (gathered (start v) batch ∷ []))
          ++ flat_map f (select (of_wallet v) kept)
  batch-own v batch kept items fifo =
      let own : flat_map g (select (of_update v) (gathered (start v) batch ∷ []))
          ≡ flat_map f batch =
        rw ((int_eq_iff v v).1 refl, append-nil) (gathers v batch) in
      rw (own, fifo) (flat_map-append f batch (select (of_wallet v) kept))

  batch-other :
      (w : ℤ) (kept items : List Msg) (u : Update)
      → (u.wallet_id == w) ≡ false
      → select (of_wallet w) items ≡ select (of_wallet w) kept
      → flat_map f (select (of_wallet w) items)
        ≡ flat_map g (select (of_update w) (u ∷ [])) ++ flat_map f (select (of_wallet w) kept)
  batch-other w kept items u other same = rw (other, same)

  -- What a call takes off the queue for a wallet is what its update has for that wallet.
  pub delivered :
      (w : ℤ) (items : List Msg) (q : MsgQueue Msg) (u : Update)
      → All HasWallet items
      → process_messages (record { items = items }) ≡ ok (q, u)
      → flat_map f (select (of_wallet w) items)
        ≡ flat_map g (select (of_update w) (u ∷ [])) ++ flat_map f (select (of_wallet w) q.items)
  delivered w [] q u valid e =
      let same = ok-injective (sym process_messages-empty ∙ e) in
      rw (← ap (λ r. r.0) same, ← ap (λ r. r.1) same)
        (elim (Bool-cases (no_wallet == w)) [ inl test ↦ rw (test, nothing) | inr test ↦ rw test ])
  delivered w (m ∷ ms) q u valid e =
      let (taken, kept, done, fifo, drained) = process_messages-batch m ms valid.0 in
      let same = ok-injective (sym done ∙ e) in
      let v = wallet_of m in
      rw (← ap (λ r. r.0) same, ← ap (λ r. r.1) same)
        (elim (Bool-cases (w == v)) [
          | inl test ↦
              subst
                (λ w.
                  flat_map f (select (of_wallet w) (m ∷ ms))
                  ≡ flat_map g (select (of_update w) (gathered (start v) (m ∷ taken) ∷ []))
                    ++ flat_map f (select (of_wallet w) kept))
                (sym ((int_eq_iff w v).0 test))
                (batch-own v (m ∷ taken) kept (m ∷ ms)
                  (fifo v ∙ own_first m taken (select (of_wallet v) kept)))
          | inr test ↦
              batch-other w kept (m ∷ ms) (gathered (start v) (m ∷ taken))
                (ne_test v w (λ p. cc ((int_eq_iff w v).1 (sym p), test))) (rw test at (fifo w))
        ])

  process-InOrder :
      (w : ℤ) (s : Run) (q : MsgQueue Msg) (u : Update)
      → All HasWallet s.queue.items
      → process_messages s.queue ≡ ok (q, u)
      → flat_map f (select (of_wallet w) s.produced)
        ≡ flat_map g (select (of_update w) s.updates)
          ++ flat_map f (select (of_wallet w) s.queue.items)
      → flat_map f (select (of_wallet w) s.produced)
        ≡ flat_map g (select (of_update w) (s.updates ++ u ∷ []))
          ++ flat_map f (select (of_wallet w) q.items)
  process-InOrder w s q u valid e h =
      h ∙ rw (delivered w s.queue.items q u valid e, select-append, flat_map-append, append_assoc)

Step-IsInOrder : {s t : Run} → Step s t → IsInOrder s → IsInOrder t
unfolding append append_messages
Step-IsInOrder (appends s m h) inv = append_all-IsInOrder s (m ∷ []) (h, tt) inv
Step-IsInOrder (appends_all s ms h) inv = append_all-IsInOrder s ms h inv
Step-IsInOrder (processes s q u e) inv = record {
  valid = process_messages-All HasWallet s.queue q u e inv.valid;
  transactions = λ w.
      process-InOrder transactions_of (λ u. u.transactions) (λ v ms. refl) refl w s q u inv.valid e
        (inv.transactions w);
  signatures_ids = λ w.
      process-InOrder signatures_ids_of (λ u. u.signatures_ids) (λ v ms. refl) refl w s q u
        inv.valid e (inv.signatures_ids w);
}

-- However the appends and the calls of `processMessages` interleave, starting from the empty queue,
-- every run keeps the order: for each wallet, the transactions of its updates, then those of its
-- messages in the queue, are those that were produced for it, in the order of production, and so
-- are the ids of the saved signatures.
pub Reach-IsInOrder : {s : Run} → Reach initial s → IsInOrder s
unfolding new_msg_queue
Reach-IsInOrder here = record { valid = tt; transactions = λ w. refl; signatures_ids = λ w. refl }
Reach-IsInOrder (next r st) = Step-IsInOrder st (Reach-IsInOrder r)
