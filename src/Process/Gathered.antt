-- ===== src/Process/Gathered.antt =====
-- What a call of `processMessages` of pkg/wallet_sync/wallet_sync.go gathers of the messages it takes.
use tax_bro.Prelude.{
  ◌≡◌, sym, ap, ◌∙◌, true, false, List, ◌++◌, append_assoc, append-nil, flat_map, arith,
}
use tax_bro.Prelude.Int.{eq_int}
use tax_bro.Queue.Walk.{Pass, sweep, sweep_induction}
use tax_bro.Update.{Msg, saved, onchain, last, Update}
use tax_bro.Process.{visit, is_full}
use tax_bro.Process.Batch.{transactions_of, signatures_ids_of, accounts_of}

-- The update holds what it held and what it takes of each message.
abbrev pub IsGathered : List Msg → Update → Pass Msg Update → Type 0
IsGathered ms u r =
    (r.state.transactions ≡ u.transactions ++ flat_map transactions_of r.taken)
    × (r.state.signatures_ids ≡ u.signatures_ids ++ flat_map signatures_ids_of r.taken)
    × (r.state.associated_accounts ≡ u.associated_accounts ++ flat_map accounts_of r.taken)

-- One message that is taken.
abbrev Gathers : Msg → Update → Update → Type 0
Gathers m u u' =
    (u'.transactions ≡ u.transactions ++ transactions_of m)
    × (u'.signatures_ids ≡ u.signatures_ids ++ signatures_ids_of m)
    × (u'.associated_accounts ≡ u.associated_accounts ++ accounts_of m)

visit-Gathers : (m : Msg) (u u' : Update) → visit m u ≡ (true, u') → Gathers m u u'
unfolding visit
visit-Gathers (saved msg) u u' e = ground (arith, append-nil u.transactions)
visit-Gathers (onchain msg) u u' e = ground (arith, append-nil u.signatures_ids)
visit-Gathers (last msg) u u' e = ground (
  arith,
  append-nil u.transactions,
  append-nil u.signatures_ids,
  append-nil u.associated_accounts,
)

visit-left_same : (m : Msg) (u u' : Update) → visit m u ≡ (false, u') → u ≡ u'
unfolding visit
visit-left_same (saved msg) u u' e = ground arith
visit-left_same (onchain msg) u u' e = ground arith
visit-left_same (last msg) u u' e = ground arith

joined {ℓ} :
    {A : Type ℓ} {whole middle : List A} (front here rest : List A)
    → whole ≡ middle ++ rest
    → middle ≡ front ++ here
    → whole ≡ front ++ (here ++ rest)
joined front here rest e e' = e ∙ ap (λ z. z ++ rest) e' ∙ append_assoc front here rest

pub sweep-IsGathered : (ms : List Msg) (u : Update) → IsGathered ms u (sweep visit is_full ms u)
sweep-IsGathered =
    sweep_induction visit is_full IsGathered
      (λ u. (sym (append-nil _), sym (append-nil _), sym (append-nil _)))
      (λ x xs u stop. (sym (append-nil _), sym (append-nil _), sym (append-nil _)))
      (λ x xs u u' rest go e ih.
        let (txs, ids, accounts) = visit-Gathers x u u' e in
        (
          joined _ (transactions_of x) _ ih.0 txs,
          joined _ (signatures_ids_of x) _ ih.1 ids,
          joined _ (accounts_of x) _ ih.2 accounts,
        ))
      (λ x xs u u' rest go e ih. rw (visit-left_same x u u' e) ih)
