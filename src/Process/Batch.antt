-- ===== src/Process/Batch.antt =====
-- What an update of `processMessages` holds: the messages that one pass took, and no others.
use tax_bro.Prelude.{
  ◌≡◌, refl, sym, ap, ◌∙◌, select, ◌≢◌, true, false, ◌||◌, List, [], ◌∷◌, ◌++◌, append_assoc,
  append-nil, String, All, flat_map, ◌==◌, arith, Bool-cases, inl, inr,
}
use tax_bro.Prelude.Int.{ℤ, eq_int, int_eq_iff}
use tax_bro.Parser.{AssociatedAccount}
use tax_bro.Rpc.{OnchainTransaction}
use tax_bro.Queue.Walk.{Pass, sweep, sweep_induction}
use tax_bro.Update.{Msg, saved, onchain, last, Update, no_wallet, empty_update}
use tax_bro.Process.{visit, is_full}

abbrev pub wallet_of : Msg → ℤ
wallet_of (saved msg) = msg.wallet_id
wallet_of (onchain msg) = msg.wallet_id
wallet_of (last msg) = msg.wallet_id

abbrev pub transactions_of : Msg → List OnchainTransaction
transactions_of (onchain msg) = msg.transaction ∷ []
transactions_of _ = []

abbrev pub signatures_ids_of : Msg → List ℤ
signatures_ids_of (saved msg) = msg.signature_id ∷ []
signatures_ids_of _ = []

abbrev pub accounts_of : Msg → List AssociatedAccount
accounts_of (saved msg) = msg.accounts
accounts_of (onchain msg) = msg.accounts
accounts_of (last msg) = []

-- The signature of the last `last` message, and `old` if there is none.
abbrev pub last_signature_of : String → List Msg → String
last_signature_of old [] = old
last_signature_of old (last msg ∷ msgs) = last_signature_of msg.signature msgs
last_signature_of old (_ ∷ msgs) = last_signature_of old msgs

-- An update with more messages of its wallet.
abbrev pub gathered : Update → List Msg → Update
gathered u msgs = record {
  wallet_id = u.wallet_id;
  transactions = u.transactions ++ flat_map transactions_of msgs;
  signatures_ids = u.signatures_ids ++ flat_map signatures_ids_of msgs;
  associated_accounts = u.associated_accounts ++ flat_map accounts_of msgs;
  last_signature = last_signature_of u.last_signature msgs;
}

-- One message with the wallet set, as `visit` takes it.
abbrev took : Update → Msg → Update
took u m = record (gathered u (m ∷ [])) { wallet_id = wallet_of m }

visit_taken :
    (m : Msg) (u : Update)
    → (u.wallet_id == wallet_of m || u.wallet_id == no_wallet) ≡ true
    → visit m u ≡ (true, took u m)
unfolding visit
visit_taken (saved msg) u h = rw h (simp append-nil)
visit_taken (onchain msg) u h = rw h (simp append-nil)
visit_taken (last msg) u h = rw h (simp append-nil)

visit_left :
    (m : Msg) (u : Update)
    → (u.wallet_id == wallet_of m || u.wallet_id == no_wallet) ≡ false
    → visit m u ≡ (false, u)
unfolding visit
visit_left (saved msg) u h = rw h
visit_left (onchain msg) u h = rw h
visit_left (last msg) u h = rw h

gathered-cons :
    (u : Update) (m : Msg) (ms : List Msg) → gathered (gathered u (m ∷ [])) ms ≡ gathered u (m ∷ ms)
gathered-cons u (saved msg) ms = simp append_assoc
gathered-cons u (onchain msg) ms = simp append_assoc
gathered-cons u (last msg) ms = simp append-nil

pub ne_test : (v w : ℤ) → v ≢ w → (v == w) ≡ false
ne_test v w h = elim (Bool-cases (v == w)) [
  | inl same ↦ absurd (h ((int_eq_iff v w).0 same))
  | inr other ↦ other
]

-- An update that has a wallet takes a message of that wallet, and leaves any other.
visit-same :
    (m : Msg) (u : Update) → wallet_of m ≡ u.wallet_id → visit m u ≡ (true, gathered u (m ∷ []))
visit-same m u same =
    let test = (int_eq_iff u.wallet_id (wallet_of m)).1 (sym same) in
    visit_taken m u (rw test) ∙ (λ i. (true, record (gathered u (m ∷ [])) { wallet_id = same i }))

visit-other :
    (m : Msg) (u : Update)
    → u.wallet_id ≢ no_wallet
    → wallet_of m ≢ u.wallet_id
    → visit m u ≡ (false, u)
visit-other m u h other =
    visit_left m u
      (rw (ne_test u.wallet_id (wallet_of m) (λ e. other (sym e)), ne_test u.wallet_id no_wallet h))

-- What holds of a pass over `ms` from the update `u` of the wallet `w`.
pub record IsBatch (w : ℤ) (ms : List Msg) (u : Update) (r : Pass Msg Update) : Type 0 where
  pub state : r.state ≡ gathered u r.taken
  pub fifo : select (λ m. wallet_of m == w) ms ≡ r.taken ++ select (λ m. wallet_of m == w) r.kept
  pub others :
      (v : ℤ) → v ≢ w → select (λ m. wallet_of m == v) ms ≡ select (λ m. wallet_of m == v) r.kept
  pub own : All (λ m. wallet_of m ≡ w) r.taken
  pub drained : is_full r.state ≡ false → select (λ m. wallet_of m == w) r.kept ≡ []

IsBatch-full :
    (x : Msg) (xs : List Msg) (u : Update)
    → is_full u ≡ true
    → IsBatch u.wallet_id (x ∷ xs) u (record { kept = x ∷ xs; taken = []; state = u })
IsBatch-full x xs u stop = record {
  state = simp append-nil;
  fifo = refl;
  others = λ v h. refl;
  own = tt;
  drained = λ go. cc;
}

IsBatch-taken :
    (x : Msg) (xs : List Msg) (u : Update) (rest : Pass Msg Update)
    → wallet_of x ≡ u.wallet_id
    → IsBatch u.wallet_id xs (gathered u (x ∷ [])) rest
    → IsBatch u.wallet_id (x ∷ xs) u (record rest { taken = x ∷ rest.taken })
IsBatch-taken x xs u rest mine b = record {
  state = b.state ∙ gathered-cons u x rest.taken;
  fifo = rw ((int_eq_iff (wallet_of x) u.wallet_id).1 mine) (ap (◌∷◌ x) b.fifo);
  others = λ v h. rw (ne_test (wallet_of x) v (λ e. h (sym e ∙ mine))) (b.others v h);
  own = (mine, b.own);
  drained = b.drained;
}

IsBatch-left :
    (x : Msg) (xs : List Msg) (u : Update) (rest : Pass Msg Update)
    → wallet_of x ≢ u.wallet_id
    → IsBatch u.wallet_id xs u rest
    → IsBatch u.wallet_id (x ∷ xs) u (record rest { kept = x ∷ rest.kept })
IsBatch-left x xs u rest other b = record {
  state = b.state;
  fifo = rw (ne_test (wallet_of x) u.wallet_id other) b.fifo;
  others = λ v h. ground (arith, b.others v h);
  own = b.own;
  drained = λ go. rw (ne_test (wallet_of x) u.wallet_id other) (b.drained go);
}

-- Whether a message is taken tells its wallet.
visit-true :
    (m : Msg) (u u' : Update)
    → u.wallet_id ≢ no_wallet
    → visit m u ≡ (true, u')
    → (wallet_of m ≡ u.wallet_id) × (gathered u (m ∷ []) ≡ u')
visit-true m u u' h e = elim (Bool-cases (wallet_of m == u.wallet_id)) [
  | inl test ↦
      let mine = (int_eq_iff (wallet_of m) u.wallet_id).0 test in
      (mine, ap (λ r. r.1) (sym (visit-same m u mine) ∙ e))
  | inr test ↦
      let other = λ (p : wallet_of m ≡ u.wallet_id). (int_eq_iff (wallet_of m) u.wallet_id).1 p in
      absurd (cc (ap (λ r. r.0) (sym (visit-other m u h (λ p. cc (other p, test))) ∙ e)))
]

visit-false :
    (m : Msg) (u u' : Update)
    → u.wallet_id ≢ no_wallet
    → visit m u ≡ (false, u')
    → (wallet_of m ≢ u.wallet_id) × (u ≡ u')
visit-false m u u' h e =
    let other = λ (p : wallet_of m ≡ u.wallet_id).
      let clash = ap (λ r. r.0) (sym (visit-same m u p) ∙ e) in
      let none_left : ⊥ = cc clash in none_left in
    (other, ap (λ r. r.1) (sym (visit-other m u h other) ∙ e))

sweep-IsBatch_from :
    (ms : List Msg) (u : Update)
    → u.wallet_id ≢ no_wallet
    → IsBatch u.wallet_id ms u (sweep visit is_full ms u)
sweep-IsBatch_from =
    sweep_induction visit is_full (λ ms u r. u.wallet_id ≢ no_wallet → IsBatch u.wallet_id ms u r)
      (λ u h. record {
        state = simp append-nil;
        fifo = refl;
        others = λ v other. refl;
        own = tt;
        drained = λ go. refl;
      })
      (λ x xs u stop h. IsBatch-full x xs u stop)
      (λ x xs u u' rest go e ih h.
        let (mine, same) = visit-true x u u' h e in
        IsBatch-taken x xs u rest mine (rw (← same) at ih h))
      (λ x xs u u' rest go e ih h.
        let (other, same) = visit-false x u u' h e in
        IsBatch-left x xs u rest other (rw (← same) at ih h))

-- The update of one message's wallet, before any message.
abbrev pub start : ℤ → Update
start w = record empty_update { wallet_id = w }

pub sweep-start :
    (m : Msg) (ms : List Msg)
    → wallet_of m ≢ no_wallet
    → (taken : List Msg) × (sweep visit is_full (m ∷ ms) empty_update
        ≡ sweep visit is_full (m ∷ ms) (start (wallet_of m)))
      × ((sweep visit is_full (m ∷ ms) empty_update).taken ≡ m ∷ taken)
unfolding sweep is_full
sweep-start m ms h =
    let first : visit m empty_update ≡ (true, gathered (start (wallet_of m)) (m ∷ [])) =
      visit_taken m empty_update (ground arith) in
    let again = visit-same m (start (wallet_of m)) refl in
    (
      (sweep visit is_full ms (gathered (start (wallet_of m)) (m ∷ []))).taken,
      rw (first, again),
      rw first,
    )

pub sweep-IsBatch :
    (m : Msg) (ms : List Msg)
    → wallet_of m ≢ no_wallet
    → IsBatch
        (wallet_of m)
        (m ∷ ms)
        (start (wallet_of m))
        (sweep visit is_full (m ∷ ms) empty_update)
sweep-IsBatch m ms h =
    rw (sweep-start m ms h).1 (sweep-IsBatch_from (m ∷ ms) (start (wallet_of m)) h)
