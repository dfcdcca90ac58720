-- ===== src/Sync/Produced.antt =====
-- What `fetchAndParse` of pkg/wallet_sync/wallet_sync.go puts into the queue.
use tax_bro.Prelude.{
  ℕ, zero, suc, ◌+◌, ◌≡◌, ◌≢◌, refl, sym, ◌∙◌, Bool-cases, inl, inr, List, [], ◌∷◌, ◌++◌, map, All,
  All-append, String, eq_string, ◌==◌, ltb, length, if◌then◌else◌, Outcome, ok, must, >>=-eq-ok,
  ok-injective,
}
use tax_bro.Prelude.Int.{ℤ, pos}
use tax_bro.Rpc.Retry.{call_rpc_with_retries}
use tax_bro.Rpc.Fetch.{fetch_transaction}
use tax_bro.Db.Transactions.{Transaction, is_stored, get_transactions}
use tax_bro.Update.{Msg, no_wallet}
use tax_bro.Process.Batch.{wallet_of}
use tax_bro.Process.Schedule.{Run, initial, appends, appends_all, HasWallet, Reach, next}
use tax_bro.Sync.{
  Append, one, many, Services, GetSignaturesOpts, saved_message, saved_messages, onchain_message,
  fetch_unsaved, fetch_page, fetch_rest, fetch_pages, fetch_and_parse, run_append, until_of,
  page_limit,
}
use tax_bro.Sync.Store.{SyncWalletRequest}

-- The messages of an append.
abbrev pub appended : Append → List Msg
appended (one msg) = msg ∷ []
appended (many msgs) = msgs

abbrev pub OfWallet : ℤ → Append → Type 0
OfWallet w a = All (λ m. wallet_of m ≡ w) (appended a)

-- A run after a list of calls on its queue.
abbrev pub produce : Run → List Append → Run
produce s [] = s
produce s (a ∷ calls) =
    produce (record s { queue = run_append s.queue a; produced = s.produced ++ appended a }) calls

module _ (services : Services) (req : SyncWalletRequest) where
  saved_all :
      (txs : List Transaction)
      → All (λ m. wallet_of m ≡ req.wallet_id) (map (saved_message services req) txs)
  unfolding saved_message
  saved_all [] = tt
  saved_all (tx ∷ txs) = (refl, saved_all txs)

  pub saved_messages-OfWallet :
      (txs : List Transaction) → All (OfWallet req.wallet_id) (saved_messages services req txs)
  saved_messages-OfWallet [] = tt
  saved_messages-OfWallet (tx ∷ txs) = (saved_all (tx ∷ txs), tt)

  fetch_unsaved-OfWallet :
      (attempts : ℕ) (stored : List Transaction) (signatures : List String) {calls : List Append}
      → fetch_unsaved services req attempts stored signatures ≡ ok calls
      → All (OfWallet req.wallet_id) calls
  unfolding fetch_unsaved onchain_message
  fetch_unsaved-OfWallet attempts stored [] h = rw (← ok-injective h) tt
  fetch_unsaved-OfWallet attempts stored (s ∷ signatures) h =
      elim (Bool-cases (is_stored stored s)) [
        | inl known ↦ fetch_unsaved-OfWallet attempts stored signatures (rw known at h)
        | inr new ↦
            let (tx, fetched, h₁) =
              >>=-eq-ok (fetch_transaction services.get_transaction attempts s) _ (rw new at h) in
            let (rest, others, h₂) =
              >>=-eq-ok (fetch_unsaved services req attempts stored signatures) _ h₁ in
            rw (← ok-injective h₂)
              ((refl, tt), fetch_unsaved-OfWallet attempts stored signatures others)
      ]

  fetch_page-OfWallet :
      (attempts page : ℕ) (signatures : List String) {calls : List Append}
      → fetch_page services req attempts page signatures ≡ ok calls
      → All (OfWallet req.wallet_id) calls
  unfolding fetch_page
  fetch_page-OfWallet attempts page signatures h =
      let (stored, got, h₁) =
        >>=-eq-ok (get_transactions (services.query_at page) [] signatures) _ h in
      let (fetched, done, h₂) =
        >>=-eq-ok (fetch_unsaved services req attempts stored signatures) _ h₁ in
      rw (← ok-injective h₂) (
        All-append _ (saved_messages services req stored) fetched (saved_messages-OfWallet stored)
          (fetch_unsaved-OfWallet attempts stored signatures done))

  module _ (attempts : ℕ) (account : String) (opts : GetSignaturesOpts) where
    fetch_rest-OfWallet :
        (page : ℕ) (l : String) (later : String → Outcome (List Append × String))
        → ((n : String) (r : List Append × String)
            → later n ≡ ok r
            → All (OfWallet req.wallet_id) r.0)
        → (signatures : List String) {r : List Append × String}
        → fetch_rest services req attempts account opts page l later signatures ≡ ok r
        → All (OfWallet req.wallet_id) r.0
    unfolding fetch_rest
    fetch_rest-OfWallet page l later h [] e = rw (← ok-injective e) tt
    fetch_rest-OfWallet page l later h (s ∷ signatures) e =
        let newest = if l == "" then s else l in
        let (calls, done, e₁) =
          >>=-eq-ok (fetch_page services req attempts page (s ∷ signatures)) _ e in
        let own = fetch_page-OfWallet attempts page (s ∷ signatures) done in
        elim (Bool-cases (ltb (length (s ∷ signatures)) opts.limit)) [
          | inl short ↦ rw (← ok-injective (rw short at e₁)) own
          | inr full ↦
              let ((rest, newest'), more, e₂) = >>=-eq-ok (later newest) _ (rw full at e₁) in
              rw (← ok-injective e₂) (All-append _ calls rest own (h newest (rest, newest') more))
        ]

    fetch_pages-OfWallet :
        (rounds page : ℕ) (l : String) {r : List Append × String}
        → fetch_pages services req attempts account opts rounds page l ≡ ok r
        → All (OfWallet req.wallet_id) r.0
    unfolding fetch_pages
    fetch_pages-OfWallet zero page l h = cc
    fetch_pages-OfWallet (suc rounds) page l h =
        let (answer, called, h₁) =
          >>=-eq-ok
            (call_rpc_with_retries (services.get_signatures account opts page) (pos 5) attempts) _
            h in
        let (signatures, listed, h₂) = >>=-eq-ok (must answer) _ h₁ in
        fetch_rest-OfWallet page l _ (λ n r e. fetch_pages-OfWallet rounds (page + 1) n e)
          signatures h₂

  -- Every message that a sync of a wallet puts into the queue is a message of that wallet.
  fetch_and_parse-OfWallet :
      (attempts rounds : ℕ) {calls : List Append}
      → fetch_and_parse services req attempts rounds ≡ ok calls
      → All (OfWallet req.wallet_id) calls
  unfolding fetch_and_parse
  fetch_and_parse-OfWallet attempts rounds h =
      let (account, known, h₁) = >>=-eq-ok (must (services.public_key req.wallet_address)) _ h in
      let (until, read, h₂) =
        >>=-eq-ok (until_of services.parse_signature req.last_signature) _ h₁ in
      let opts : GetSignaturesOpts = record { limit = page_limit; until = until } in
      let ((pages, newest), paged, h₃) =
        >>=-eq-ok (fetch_pages services req attempts account opts rounds 0 "") _ h₂ in
      rw (← ok-injective h₃) (
        All-append _ pages _ (fetch_pages-OfWallet attempts account opts rounds 0 "" paged)
          ((refl, tt), tt))

-- Calls of messages with a wallet are steps of the schedule.
pub appends-Reach :
    (calls : List Append) {s : Run}
    → Reach initial s
    → All (λ a. All HasWallet (appended a)) calls
    → Reach initial (produce s calls)
appends-Reach [] r h = r
appends-Reach (one m ∷ calls) {s} r h = appends-Reach calls (next r (appends s m h.0.0)) h.1
appends-Reach (many msgs ∷ calls) {s} r h =
    appends-Reach calls (next r (appends_all s msgs h.0)) h.1

module _ (services : Services) (req : SyncWalletRequest)
    (is_wallet : req.wallet_id ≢ no_wallet) where
  all-HasWallet :
      (msgs : List Msg) → All (λ m. wallet_of m ≡ req.wallet_id) msgs → All HasWallet msgs
  all-HasWallet [] h = tt
  all-HasWallet (m ∷ msgs) h = ((λ e. is_wallet (sym h.0 ∙ e)), all-HasWallet msgs h.1)

  pub calls-HasWallet :
      (calls : List Append)
      → All (OfWallet req.wallet_id) calls
      → All (λ a. All HasWallet (appended a)) calls
  calls-HasWallet [] h = tt
  calls-HasWallet (a ∷ calls) h = (all-HasWallet (appended a) h.0, calls-HasWallet calls h.1)

  -- A sync of a wallet is a sequence of steps of the schedule: from any state that the queue can
  -- reach, the calls that it makes lead to a state that the queue can reach.
  fetch_and_parse-Reach :
      (attempts rounds : ℕ) {calls : List Append} {s : Run}
      → fetch_and_parse services req attempts rounds ≡ ok calls
      → Reach initial s
      → Reach initial (produce s calls)
  fetch_and_parse-Reach attempts rounds {calls} h r =
      appends-Reach calls r
        (calls-HasWallet calls (fetch_and_parse-OfWallet services req attempts rounds h))
