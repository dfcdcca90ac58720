-- ===== src/Sync/Page.antt =====
-- The pages of `fetchAndParse` of pkg/wallet_sync/wallet_sync.go: one short page, and full pages.
use tax_bro.Prelude.{
  ℕ, zero, suc, ◌+◌, ◌<◌, ◌≤◌, ◌≡◌, refl, true, false, Bool-cases, inl, inr, not, List, [], ◌∷◌,
  ◌++◌, All, map, Option, String, eq_string, ◌==◌, ltb, length, select, if◌then◌else◌, Outcome, ok,
  fault, out_of_fuel, value, arith,
}
use tax_bro.Prelude.Int.{pos}
use tax_bro.Rpc.{OnchainTransaction}
use tax_bro.Rpc.Retry.{call_rpc_with_retries}
use tax_bro.Rpc.Fetch.{fetch_transaction}
use tax_bro.Db.Transactions.{Transaction, is_stored, get_transactions}
use tax_bro.Update.{last}
use tax_bro.Sync.{
  Append, one, Services, GetSignaturesOpts, saved_messages, onchain_message, fetch_unsaved,
  fetch_page, fetch_rest, fetch_pages, fetch_and_parse, until_of, page_limit,
}
use tax_bro.Sync.Store.{SyncWalletRequest}

module _ (services : Services) (req : SyncWalletRequest) (attempts : ℕ) where
  -- The calls for the signatures of a page that are not stored.
  abbrev pub fetched_calls :
      (String → OnchainTransaction) → List Transaction → List String → List Append
  fetched_calls fetched stored signatures =
      map (λ v. one (onchain_message services req (fetched v)))
        (select (λ v. not (is_stored stored v)) signatures)

  -- The transaction of a signature is fetched, if it is not stored.
  abbrev pub Fetches : (String → OnchainTransaction) → List Transaction → String → Type 0
  Fetches fetched stored v =
      is_stored stored v ≡ false
      → fetch_transaction services.get_transaction attempts v ≡ ok (fetched v)

  fetch_unsaved-fetched :
      (fetched : String → OnchainTransaction) (stored : List Transaction) (signatures : List String)
      → All (Fetches fetched stored) signatures
      → fetch_unsaved services req attempts stored signatures
        ≡ ok (fetched_calls fetched stored signatures)
  unfolding fetch_unsaved
  fetch_unsaved-fetched fetched stored [] h = refl
  fetch_unsaved-fetched fetched stored (s ∷ signatures) h =
      let ih = fetch_unsaved-fetched fetched stored signatures h.1 in
      elim (Bool-cases (is_stored stored s)) [
        | inl known ↦ rw (known, ih)
        | inr new ↦ rw (new, h.0 new, ih)
      ]

  module _ (account : String) (until : Option String)
      (known : services.public_key req.wallet_address ≡ value account)
      (read : until_of services.parse_signature req.last_signature ≡ ok until) where
    abbrev pub options : GetSignaturesOpts
    options = record { limit = page_limit; until = until }

    -- If the address and the last signature of the request are valid, the first page has at least one
    -- and less than a hundred signatures, the query for them returns, and the fetch of each of them
    -- that is not stored returns a transaction, then the sync returns, and the queue gets: in one
    -- call a message for each stored transaction among them, then for each signature that is not
    -- stored the transaction fetched for it, in the order of the page, and at the end the newest
    -- signature.
    pub fetch_and_parse-short :
        (rounds : ℕ) (s : String) (signatures : List String) (stored : List Transaction)
        (fetched : String → OnchainTransaction)
        → call_rpc_with_retries (services.get_signatures account options 0) (pos 5) attempts
          ≡ ok (value (s ∷ signatures))
        → length (s ∷ signatures) < 100
        → get_transactions (services.query_at 0) [] (s ∷ signatures) ≡ ok stored
        → All (Fetches fetched stored) (s ∷ signatures)
        → fetch_and_parse services req attempts (suc rounds)
          ≡ ok (
              saved_messages services req stored
              ++ fetched_calls fetched stored (s ∷ signatures)
              ++ one (last (record { wallet_id = req.wallet_id; signature = s })) ∷ [])
    unfolding fetch_and_parse fetch_pages fetch_rest fetch_page
    fetch_and_parse-short rounds s signatures stored fetched answered short got fetches =
        let few : ltb (length (s ∷ signatures)) 100 ≡ true = ground arith in
        let calls = fetch_unsaved-fetched fetched stored (s ∷ signatures) fetches in
        rw (known, read, answered, got, calls, few) refl

    fetch_rest-full :
        (page : ℕ) (l : String) (later : String → Outcome (List Append × String))
        (signatures : List String) (calls : List Append)
        → 100 ≤ length signatures
        → fetch_page services req attempts page signatures ≡ ok calls
        → ((n : String) → later n ≡ fault out_of_fuel)
        → fetch_rest services req attempts account options page l later signatures
          ≡ fault out_of_fuel
    unfolding fetch_rest
    fetch_rest-full page l later [] calls full done endless = absurd (omega arith)
    fetch_rest-full page l later (s ∷ signatures) calls full done endless =
        let long : ltb (length (s ∷ signatures)) 100 ≡ false = ground arith in
        rw (done, long, endless (if l == "" then s else l)) refl

    fetch_pages-endless :
        (answers : ℕ → List String) (calls : ℕ → List Append)
        → ((page : ℕ)
            → call_rpc_with_retries (services.get_signatures account options page) (pos 5) attempts
              ≡ ok (value (answers page)))
        → ((page : ℕ) → 100 ≤ length (answers page))
        → ((page : ℕ) → fetch_page services req attempts page (answers page) ≡ ok (calls page))
        → (rounds page : ℕ) (l : String)
        → fetch_pages services req attempts account options rounds page l ≡ fault out_of_fuel
    unfolding fetch_pages
    fetch_pages-endless answers calls answered full done zero page l = refl
    fetch_pages-endless answers calls answered full done (suc rounds) page l = rw (answered page) (
        fetch_rest-full page l _ (answers page) (calls page) (full page) (done page)
          (fetch_pages-endless answers calls answered full done rounds (page + 1)))

    -- If each call with the options of the sync is answered with a full page, and each page is
    -- handled, then the sync never returns: it asks each time with the same options, and no number
    -- of rounds is enough. Only a later call that is answered with less would end it.
    pub fetch_and_parse-endless :
        (answers : ℕ → List String) (calls : ℕ → List Append)
        → ((page : ℕ)
            → call_rpc_with_retries (services.get_signatures account options page) (pos 5) attempts
              ≡ ok (value (answers page)))
        → ((page : ℕ) → 100 ≤ length (answers page))
        → ((page : ℕ) → fetch_page services req attempts page (answers page) ≡ ok (calls page))
        → (rounds : ℕ) → fetch_and_parse services req attempts rounds ≡ fault out_of_fuel
    unfolding fetch_and_parse
    fetch_and_parse-endless answers calls answered full done rounds =
        rw (known, read, fetch_pages-endless answers calls answered full done rounds 0 "") refl
