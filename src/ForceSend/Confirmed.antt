-- ===== src/ForceSend/Confirmed.antt =====
-- When `ForceSendTx` of pkg/test_utils/solana.go returns.
use text.Mathlib.TextEquality.{eq_iff}
use tax_bro.Prelude.{
  ◌≡◌, ◌≢◌, refl, sym, ◌∙◌, Bool, true, false, Bool-cases, inl, inr, List, [], ◌∷◌, ◌++◌, Option,
  none, some, String, eq_string, ◌==◌, if◌then◌else◌, ok, ok-injective, >>=-eq-ok, must, arith,
}
use tax_bro.Rpc.{index}
use tax_bro.ForceSend.{
  Status, processed, confirmed, finalized, Answer, not_found, failed, values, Client,
  zero_signature, send_round, Sender, beginning, looping, storing, stopped, Watcher, watching,
  asking, returned, Sending, nothing_sent, stored_signature, sender_step, status_step, answer_step,
  watcher_step, sends, watches, Runs, begin, go, IsDone,
}

-- The first signature of the first transaction sent, of those with a signature that is not zero.
abbrev pub first_of : List (List String) → String
first_of [] = zero_signature
first_of ([] ∷ sent) = first_of sent
first_of ((x ∷ xs) ∷ sent) = if x == zero_signature then first_of sent else x

first_of-unsigned : (sent : List (List String)) → first_of (sent ++ [] ∷ []) ≡ first_of sent
first_of-unsigned [] = refl
first_of-unsigned ([] ∷ sent) = first_of-unsigned sent
first_of-unsigned ((x ∷ xs) ∷ sent) = ground (arith, first_of-unsigned sent)

first_of-signed :
    (sent : List (List String)) (y : String) (ys : List String)
    → first_of (sent ++ (y ∷ ys) ∷ [])
      ≡ (if first_of sent == zero_signature then y else first_of sent)
first_of-signed [] y ys =
    ground (arith, eq_iff y zero_signature, eq_iff zero_signature zero_signature)
first_of-signed ([] ∷ sent) y ys = first_of-signed sent y ys
first_of-signed ((x ∷ xs) ∷ sent) y ys = ground (arith, first_of-signed sent y ys)

-- The shared signature is that of what was stored so far.
abbrev pub Stores : Sender → List (List String) → String → Type 0
Stores beginning sent signature = (sent ≡ []) × (signature ≡ zero_signature)
Stores (looping r) sent signature = signature ≡ first_of sent
Stores (storing r sigs) sent signature =
    (old : List (List String)) × (sent ≡ old ++ sigs ∷ []) × (signature ≡ first_of old)
Stores stopped sent signature = signature ≡ first_of sent

-- The second goroutine asks for the shared signature, and has returned only when it was reported as
-- confirmed and the context was cancelled.
abbrev pub Asks : Watcher → String → List (String × Status) → Bool → Type 0
Asks watching signature reported cancelled = Unit
Asks (asking x) signature reported cancelled =
    (x ≡ signature) × ((signature == zero_signature) ≡ false)
Asks returned signature reported cancelled =
    (front back : List (String × Status)) × (reported ≡ front ++ (signature, confirmed) ∷ back)
    × ((signature == zero_signature) ≡ false)
    × (cancelled ≡ true)

pub record Inv (s : Sending) : Type 0 where
  pub stores : Stores s.sender s.sent s.signature
  pub asks : Asks s.watcher s.signature s.reported s.cancelled

-- A signature that is there stays.
stored_signature-kept :
    (signature : String) (sigs : List String) {new : String}
    → stored_signature signature sigs ≡ ok new
    → (signature == zero_signature) ≡ false
    → signature ≡ new
stored_signature-kept signature sigs e there = ok-injective (rw there at e)

stored_signature-first_of :
    (old : List (List String)) (sigs : List String) {new : String}
    → stored_signature (first_of old) sigs ≡ ok new
    → new ≡ first_of (old ++ sigs ∷ [])
stored_signature-first_of old sigs {new} e = elim (Bool-cases (first_of old == zero_signature)) [
  | inl missing ↦ from_index sigs (rw missing at e) missing
  | inr there ↦ sym (ok-injective (rw there at e)) ∙ from_old sigs there
]
  where
    from_index :
        (sigs : List String)
        → index sigs 0 ≡ ok new
        → (first_of old == zero_signature) ≡ true
        → new ≡ first_of (old ++ sigs ∷ [])
    from_index [] e missing = cc
    from_index (x ∷ xs) e missing =
        sym (ok-injective e) ∙ sym (first_of-signed old x xs ∙ rw missing refl)

    from_old :
        (sigs : List String)
        → (first_of old == zero_signature) ≡ false
        → first_of old ≡ first_of (old ++ sigs ∷ [])
    from_old [] there = sym (first_of-unsigned old)
    from_old (x ∷ xs) there = sym (first_of-signed old x xs ∙ rw there refl)

Asks-stored :
    (watcher : Watcher) (signature : String) (sigs : List String)
    (reported : List (String × Status)) (cancelled : Bool) {new : String}
    → stored_signature signature sigs ≡ ok new
    → Asks watcher signature reported cancelled
    → Asks watcher new reported cancelled
Asks-stored watching signature sigs reported cancelled e a = tt
Asks-stored (asking x) signature sigs reported cancelled e a =
    rw (← stored_signature-kept signature sigs e a.1) a
Asks-stored returned signature sigs reported cancelled e a =
    rw (← stored_signature-kept signature sigs e a.3) a

sender_step-Inv :
    (client : Client) (sender : Sender) (s : Sending) {t : Sending}
    → Stores sender s.sent s.signature
    → Asks s.watcher s.signature s.reported s.cancelled
    → s.sender ≡ sender
    → sender_step client sender s ≡ ok t
    → Inv t
unfolding sender_step
sender_step-Inv client beginning s stores asks at e =
    let (blockhash, got, e₁) = >>=-eq-ok (must client.get_latest_blockhash) _ e in
    rw (← ok-injective e₁) (record { stores = rw (stores.0, stores.1) refl; asks = asks })
sender_step-Inv client (looping r) s stores asks at e = elim (Bool-cases s.cancelled) [
  | inl ended ↦
      rw (← ok-injective (rw ended at e)) (record { stores = stores; asks = rw ended at asks })
  | inr going ↦
      let ((r', sigs), sent, e₁) = >>=-eq-ok (send_round client r) _ (rw going at e) in
      rw (← ok-injective e₁) (record { stores = (s.sent, refl, stores); asks = rw going at asks })
]
sender_step-Inv client (storing r sigs) s (old, sent, own) asks at e =
    let (new, stored, e₁) = >>=-eq-ok (stored_signature s.signature sigs) _ e in
    rw (← ok-injective e₁) (record {
      stores = rw sent (stored_signature-first_of old sigs (rw own at stored));
      asks = Asks-stored s.watcher s.signature sigs s.reported s.cancelled stored asks;
    })
sender_step-Inv client stopped s stores asks at e =
    rw (← ok-injective e) (record { stores = rw at stores; asks = asks })

status_step-Inv :
    (x : String) (status : Option Status) (s : Sending)
    → Stores s.sender s.sent s.signature
    → (x ≡ s.signature) × ((s.signature == zero_signature) ≡ false)
    → Inv (status_step x status s)
status_step-Inv x none s stores own = record { stores = stores; asks = tt }
status_step-Inv x (some confirmed) s stores own = record {
  stores = stores;
  asks = (s.reported, [], rw own.0 refl, own.1, refl);
}
status_step-Inv x (some processed) s stores own = record { stores = stores; asks = tt }
status_step-Inv x (some finalized) s stores own = record { stores = stores; asks = tt }

answer_step-Inv :
    (x : String) (answer : Answer) (s : Sending) {t : Sending}
    → Stores s.sender s.sent s.signature
    → (x ≡ s.signature) × ((s.signature == zero_signature) ≡ false)
    → answer_step x answer s ≡ ok t
    → Inv t
answer_step-Inv x not_found s stores own e =
    rw (← ok-injective e) (record { stores = stores; asks = tt })
answer_step-Inv x failed s stores own e = cc
answer_step-Inv x (values statuses) s stores own e =
    let (status, got, e₁) = >>=-eq-ok (index statuses 0) _ e in
    rw (← ok-injective e₁) (status_step-Inv x status s stores own)

watcher_step-Inv :
    (client : Client) (watcher : Watcher) (s : Sending) {t : Sending}
    → Stores s.sender s.sent s.signature
    → Asks watcher s.signature s.reported s.cancelled
    → s.watcher ≡ watcher
    → watcher_step client watcher s ≡ ok t
    → Inv t
unfolding watcher_step
watcher_step-Inv client watching s stores asks at e =
    elim (Bool-cases (s.signature == zero_signature)) [
      | inl missing ↦ rw (← ok-injective e) (record { stores = stores; asks = rw missing tt })
      | inr there ↦
          rw (← ok-injective e) (record { stores = stores; asks = rw there (refl, there) })
    ]
watcher_step-Inv client (asking x) s stores asks at e =
    answer_step-Inv x (client.get_signature_statuses x) s stores asks e
watcher_step-Inv client returned s stores asks at e =
    rw (← ok-injective e) (record { stores = stores; asks = rw at asks })

pub Runs-Inv : {s : Sending} → Runs nothing_sent s → Inv s
Runs-Inv begin = record { stores = (refl, refl); asks = tt }
Runs-Inv (go {t = s} r (sends client e)) =
    let inv = Runs-Inv r in sender_step-Inv client s.sender s inv.stores inv.asks refl e
Runs-Inv (go {t = s} r (watches client e)) =
    let inv = Runs-Inv r in watcher_step-Inv client s.watcher s inv.stores inv.asks refl e

-- However the two goroutines interleave, and whatever the client and the clock answer, the function
-- has returned only if the first signature of the transactions that it sent was reported as
-- confirmed: no other status of it, and no status of a transaction that was sent later, ends it.
pub IsDone-confirmed :
    {s : Sending}
    → Runs nothing_sent s
    → IsDone s
    → (front back : List (String × Status)) × (s.reported
        ≡ front ++ (first_of s.sent, confirmed) ∷ back)
      × (first_of s.sent ≢ zero_signature)
IsDone-confirmed {s} r done =
    let inv = Runs-Inv r in
    let own : s.signature ≡ first_of s.sent = rw done.sender at inv.stores in
    let (front, back, found, there, ended) = rw done.watcher at inv.asks in
    (front, back, rw own at found, λ e. ground (arith, own, eq_iff s.signature zero_signature))
