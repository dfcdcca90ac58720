-- ===== src/Process/Results.antt =====
-- The promises of `processMessages` of pkg/wallet_sync/wallet_sync.go.
use mathlib.Core.List.{Perm}
use tax_bro.Prelude.{
  ◌+◌, ◌≤◌, ◌≡◌, sym, ap, subst, ◌∙◌, ◌⊎◌, inl, inr, Bool-cases, ◌≢◌, Bool, true, false, List, [],
  ◌∷◌, ◌++◌, All, flat_map, length, length-append, select, ◌==◌, if◌then◌else◌, ok, ok-injective,
  arith,
}
use tax_bro.Prelude.Int.{ℤ, eq_int, int_eq_iff}
use tax_bro.Queue.{MsgQueue}
use tax_bro.Queue.Walk.{sweep, sweep_induction, walk-sweep, sweep-perm}
use tax_bro.Update.{Msg, saved, onchain, last, Update, no_wallet, empty_update}
use tax_bro.Process.{visit, is_full, process_messages}
use tax_bro.Process.Gathered.{sweep-IsGathered}
use tax_bro.Process.Batch.{
  transactions_of, signatures_ids_of, accounts_of, wallet_of, gathered, start, sweep-start,
  sweep-IsBatch,
}

pub process_messages-sweep :
    (q : MsgQueue Msg)
    → process_messages q
      ≡ ok (
        record { items = (sweep visit is_full q.items empty_update).kept },
        (sweep visit is_full q.items empty_update).state,
      )
process_messages-sweep q = unfold process_messages in walk-sweep visit is_full q empty_update

-- An update is not full before each message that it takes.
abbrev Fits : Update → Type 0
Fits u = (length u.signatures_ids ≤ 21) × (length u.transactions ≤ 21)

visit-Fits : (m : Msg) (u u' : Update) → is_full u ≡ false → visit m u ≡ (true, u') → Fits u'
unfolding visit is_full
visit-Fits (saved msg) u u' room e =
    ground (arith, length-append u.signatures_ids (msg.signature_id ∷ []))
visit-Fits (onchain msg) u u' room e =
    ground (arith, length-append u.transactions (msg.transaction ∷ []))
visit-Fits (last msg) u u' room e = ground arith

visit-left_Fits : (m : Msg) (u u' : Update) → Fits u → visit m u ≡ (false, u') → Fits u'
unfolding visit
visit-left_Fits (saved msg) u u' h e = ground arith
visit-left_Fits (onchain msg) u u' h e = ground arith
visit-left_Fits (last msg) u u' h e = ground arith

sweep-Fits : (ms : List Msg) (u : Update) → Fits u → Fits (sweep visit is_full ms u).state
sweep-Fits =
    sweep_induction visit is_full (λ ms u r. Fits u → Fits r.state) (λ u h. h) (λ x xs u stop h. h)
      (λ x xs u u' rest go e ih h. ih (visit-Fits x u u' go e))
      (λ x xs u u' rest go e ih h. ih (visit-left_Fits x u u' h e))

sweep-length :
    (ms : List Msg) (u : Update)
    → length (sweep visit is_full ms u).taken + length (sweep visit is_full ms u).kept ≡ length ms
sweep-length =
    sweep_induction visit is_full (λ ms u r. length r.taken + length r.kept ≡ length ms)
      (λ u. omega arith) (λ x xs u stop. omega arith) (λ x xs u u' rest go e ih. omega arith)
      (λ x xs u u' rest go e ih. omega arith)

-- An empty queue stays as it is, and gives an update without a wallet.
pub process_messages-empty :
    process_messages (record { items = [] }) ≡ ok (record { items = [] }, empty_update)
unfolding sweep
process_messages-empty = process_messages-sweep (record { items = [] })

abbrev pub of_wallet : ℤ → Msg → Bool
of_wallet w m = wallet_of m == w

-- From a queue whose first message is of the wallet w, one call takes a batch `m ∷ taken` and gives
-- the update with exactly that batch. For w, the messages of the queue were the batch and then the
-- messages of w that are left, in order; for any other wallet they are those that are left. And the
-- update is full, or no message of w is left.
pub process_messages-batch :
    (m : Msg) (ms : List Msg)
    → wallet_of m ≢ no_wallet
    → (taken kept : List Msg) × (process_messages (record { items = m ∷ ms })
        ≡ ok (record { items = kept }, gathered (start (wallet_of m)) (m ∷ taken)))
      × ((v : ℤ)
          → select (of_wallet v) (m ∷ ms)
            ≡ (if v == wallet_of m then m ∷ taken else []) ++ select (of_wallet v) kept)
      × ((is_full (gathered (start (wallet_of m)) (m ∷ taken)) ≡ true)
          ⊎ (select (of_wallet (wallet_of m)) kept ≡ []))
process_messages-batch m ms h =
    let b = sweep-IsBatch m ms h in
    let (taken, same, head) = sweep-start m ms h in
    let kept = (sweep visit is_full (m ∷ ms) empty_update).kept in
    let state = rw head at b.state in
    let w = wallet_of m in
    (
      taken,
      kept,
      rw (← state) (process_messages-sweep (record { items = m ∷ ms })),
      λ v. elim (Bool-cases (v == w)) [
        | inl mine ↦ rw mine (
            subst (λ v. select (of_wallet v) (m ∷ ms) ≡ (m ∷ taken) ++ select (of_wallet v) kept)
              (sym ((int_eq_iff v w).0 mine)) (rw head at b.fifo))
        | inr other ↦ rw other (b.others v (λ e. cc ((int_eq_iff v w).1 e, other)))
      ],
      elim (Bool-cases (is_full (gathered (start w) (m ∷ taken)))) [
        | inl full ↦ inl full
        | inr room ↦ inr (b.drained (rw state room))
      ],
    )

-- A call on a queue with a message returns, takes at least that message, and gives an update of its
-- wallet.
pub process_messages-shorter :
    (m : Msg) (ms : List Msg)
    → wallet_of m ≢ no_wallet
    → (q' : MsgQueue Msg) × (u : Update) × (process_messages (record { items = m ∷ ms })
        ≡ ok (q', u))
      × (length q'.items ≤ length ms)
      × (u.wallet_id ≡ wallet_of m)
process_messages-shorter m ms h =
    let r = sweep visit is_full (m ∷ ms) empty_update in
    let (taken, same, head) = sweep-start m ms h in
    let whole : length (m ∷ taken) + length r.kept ≡ length (m ∷ ms) =
      rw head at (sweep-length (m ∷ ms) empty_update) in
    (
      record { items = r.kept },
      r.state,
      process_messages-sweep (record { items = m ∷ ms }),
      omega arith,
      ap (λ u. u.wallet_id) (sweep-IsBatch m ms h).state,
    )

-- Whatever the queue, the call returns: its messages are, in some order, those that are left and
-- those that were taken; the update has exactly the transactions, the saved signatures and the
-- accounts of those that were taken, in order; and it has at most 21 transactions and at most 21
-- signatures.
pub process_messages-bounds :
    (q : MsgQueue Msg)
    → (q' : MsgQueue Msg) × (u : Update) × (taken : List Msg) × (process_messages q ≡ ok (q', u))
      × Perm (taken ++ q'.items) q.items
      × (u.transactions ≡ flat_map transactions_of taken)
      × (u.signatures_ids ≡ flat_map signatures_ids_of taken)
      × (u.associated_accounts ≡ flat_map accounts_of taken)
      × (length u.signatures_ids ≤ 21)
      × (length u.transactions ≤ 21)
process_messages-bounds q =
    let r = sweep visit is_full q.items empty_update in
    let (ids, txs) = sweep-Fits q.items empty_update (omega arith) in
    let (gathered_txs, gathered_ids, gathered_accounts) = sweep-IsGathered q.items empty_update in
    (
      record { items = r.kept },
      r.state,
      r.taken,
      process_messages-sweep q,
      sweep-perm visit is_full q.items empty_update,
      gathered_txs,
      gathered_ids,
      gathered_accounts,
      ids,
      txs,
    )

sweep-All :
    (P : Msg → Type 0) (ms : List Msg) (u : Update)
    → All P ms
    → All P (sweep visit is_full ms u).kept
sweep-All P =
    sweep_induction visit is_full (λ ms u r. All P ms → All P r.kept) (λ u h. h)
      (λ x xs u stop h. h) (λ x xs u u' rest go e ih h. ih h.1)
      (λ x xs u u' rest go e ih h. (h.0, ih h.1))

-- What holds of all the messages of a queue holds of those that a call leaves.
pub process_messages-All :
    (P : Msg → Type 0) (q q' : MsgQueue Msg) (u : Update)
    → process_messages q ≡ ok (q', u)
    → All P q.items
    → All P q'.items
process_messages-All P q q' u e h =
    rw (ap (λ r. r.0) (ok-injective (sym e ∙ process_messages-sweep q)))
      (sweep-All P q.items empty_update h)
