-- ===== src/Sync/Loops/Whole.antt =====
-- `fetchAndParse` of pkg/wallet_sync/wallet_sync.go as steps of the first goroutine.
use tax_bro.Prelude.{
  ℕ, zero, suc, ◌+◌, ◌≡◌, refl, sym, ap, ◌∙◌, Bool, true, false, Bool-cases, inl, inr, List, [],
  ◌∷◌, ◌++◌, append_assoc, String, eq_string, ◌==◌, ltb, length, if◌then◌else◌, ok, >>=-eq-ok,
  ok-injective, must,
}
use tax_bro.Prelude.Int.{pos}
use tax_bro.Rpc.Retry.{call_rpc_with_retries}
use tax_bro.Rpc.Fetch.{fetch_transaction}
use tax_bro.Db.{Store}
use tax_bro.Db.Transactions.{Transaction, is_stored, get_transactions}
use tax_bro.Update.{last}
use tax_bro.Process.Schedule.{Run}
use tax_bro.Sync.{
  Append, one, Services, GetSignaturesOpts, page_limit, until_of, saved_messages, onchain_message,
  fetch_unsaved, fetch_page, fetch_rest, fetch_pages, fetch_and_parse,
}
use tax_bro.Sync.Store.{SyncWalletRequest, SyncStore}
use tax_bro.Sync.Produced.{produce}
use tax_bro.Sync.Loops.AtPage.{at_page, produce-append, saved_messages-at_page}
use tax_bro.Sync.Loops.{
  Pages, Fetcher, idle, starting, paging, reading, Saver, Loops, fetches, Runs, go,
}

module _ (db : Store) (sync : SyncStore db) (start : Loops db) (saver : Saver) (st : db.State)
    (services : Services) (attempts : ℕ) where
  -- The process while the second goroutine and the database stand still.
  abbrev still : Fetcher → Run → Loops db
  still fetcher run = record { fetcher = fetcher; saver = saver; run = run; st = st }

  abbrev Gets : Fetcher → Run → Type 0
  Gets fetcher run = Runs db sync start (still fetcher run)

  -- The loop over the signatures of a page.
  fetch_unsaved-Gets :
      (p : Pages) (short : Bool) (stored : List Transaction) (signatures : List String) (run : Run)
      {calls : List Append}
      → fetch_unsaved services p.req attempts stored signatures ≡ ok calls
      → Gets (reading p short stored signatures) run
      → Gets (reading p short stored []) (produce run calls)
  unfolding fetch_unsaved
  fetch_unsaved-Gets p short stored [] run e r = rw (← ok-injective e) r
  fetch_unsaved-Gets p short stored (s ∷ signatures) run e r =
      elim (Bool-cases (is_stored stored s)) [
        | inl known ↦ fetch_unsaved-Gets p short stored signatures run (rw known at e) (
            go r (
              fetches _ services attempts (reading p short stored signatures) run st
                (rw known refl)))
        | inr new ↦
            let (tx, got, e₁) =
              >>=-eq-ok (fetch_transaction services.get_transaction attempts s) _ (rw new at e) in
            let (rest, others, e₂) =
              >>=-eq-ok (fetch_unsaved services p.req attempts stored signatures) _ e₁ in
            let fetched : Append = one (onchain_message services p.req tx) in
            rw (← ok-injective e₂) (
              fetch_unsaved-Gets p short stored signatures (produce run (fetched ∷ [])) others (
                go r (
                  fetches _ services attempts (reading p short stored signatures)
                    (produce run (fetched ∷ [])) st (rw (new, got) refl))))
      ]

  abbrev end_of : Pages → String → Append
  end_of p signature = one (last (record { wallet_id = p.req.wallet_id; signature = signature }))

  -- A short page is the last one.
  last_page-Gets :
      (p : Pages) (short : Bool) (stored : List Transaction) (run : Run)
      → short ≡ true
      → Gets (reading p short stored []) run
      → Gets idle (produce run (end_of p p.new_last_signature ∷ []))
  last_page-Gets p true stored run h r = go r (fetches _ services attempts idle _ st refl)
  last_page-Gets p false stored run h r = cc

  next_page-Gets :
      (p : Pages) (short : Bool) (stored : List Transaction) (run : Run)
      → short ≡ false
      → Gets (reading p short stored []) run
      → Gets (paging p) run
  next_page-Gets p false stored run h r = go r (fetches _ services attempts (paging p) run st refl)
  next_page-Gets p true stored run h r = cc

  -- A page that is not empty, up to its last signature.
  fetch_page-Gets :
      (page : ℕ) (p : Pages) (s : String) (signatures : List String) (run : Run)
      {calls : List Append} {answer : _}
      → call_rpc_with_retries (services.get_signatures p.account p.opts page) (pos 5) attempts
        ≡ ok answer
      → must answer ≡ ok (s ∷ signatures)
      → fetch_page services p.req attempts page (s ∷ signatures) ≡ ok calls
      → Gets (paging p) run
      → (stored : List Transaction) × Gets
          (reading
            (record p {
              new_last_signature = if p.new_last_signature == "" then s else p.new_last_signature;
            })
            (ltb (length (s ∷ signatures)) p.opts.limit)
            stored
            [])
          (produce run calls)
  unfolding fetch_page
  fetch_page-Gets page p s signatures run called listed e r =
      let (stored, got, e₁) =
        >>=-eq-ok (get_transactions (services.query_at page) [] (s ∷ signatures)) _ e in
      let (fetched, others, e₂) =
        >>=-eq-ok (fetch_unsaved services p.req attempts stored (s ∷ signatures)) _ e₁ in
      let p' : Pages = record p {
        new_last_signature = if p.new_last_signature == "" then s else p.new_last_signature;
      } in
      let short = ltb (length (s ∷ signatures)) p.opts.limit in
      let kept = saved_messages services p.req stored in
      let read_from : Gets (reading p' short stored (s ∷ signatures)) (produce run kept) =
        rw (← saved_messages-at_page services page p.req stored) (
          go r (
            fetches _ (at_page services page) attempts (reading p' short stored (s ∷ signatures)) _
              st (rw (called, listed, got) refl))) in
      (
        stored,
        rw (← ok-injective e₂, ← produce-append kept fetched run)
            (fetch_unsaved-Gets p' short stored (s ∷ signatures) (produce run kept) others
              read_from),
      )

  -- What the rounds from a page on lead to.
  abbrev Done : Pages → ℕ → ℕ → Type 0
  Done p page rounds =
      (newest : String) (run : Run) (r : List Append × String)
      → fetch_pages services p.req attempts p.account p.opts rounds page newest ≡ ok r
      → Gets (paging (record p { new_last_signature = newest })) run
      → Gets idle (produce run (r.0 ++ end_of p r.1 ∷ []))

  fetch_rest-Gets :
      (page rounds : ℕ) (p : Pages) (signatures : List String) (run : Run)
      {r : List Append × String} {answer : _}
      → Done p (page + 1) rounds
      → call_rpc_with_retries (services.get_signatures p.account p.opts page) (pos 5) attempts
        ≡ ok answer
      → must answer ≡ ok signatures
      → fetch_rest services p.req attempts p.account p.opts page p.new_last_signature
          (fetch_pages services p.req attempts p.account p.opts rounds (page + 1))
          signatures
        ≡ ok r
      → Gets (paging p) run
      → Gets idle (produce run (r.0 ++ end_of p r.1 ∷ []))
  unfolding fetch_rest
  fetch_rest-Gets page rounds p [] run later called listed e r =
      rw (← ok-injective e)
        (go r (fetches _ (at_page services page) attempts idle _ st (rw (called, listed) refl)))
  fetch_rest-Gets page rounds p (s ∷ signatures) run later called listed e r =
      let newest = if p.new_last_signature == "" then s else p.new_last_signature in
      let p' : Pages = record p { new_last_signature = newest } in
      let short = ltb (length (s ∷ signatures)) p.opts.limit in
      let (calls, paged, e₁) =
        >>=-eq-ok (fetch_page services p.req attempts page (s ∷ signatures)) _ e in
      let (stored, at_end) = fetch_page-Gets page p s signatures run called listed paged r in
      elim (Bool-cases short) [
        | inl is_last ↦
            rw
              (← ok-injective (rw is_last at e₁), ← produce-append calls (end_of p newest ∷ []) run)
              (last_page-Gets p' short stored (produce run calls) is_last at_end)
        | inr full ↦
            let ((rest, newest'), more, e₂) =
              >>=-eq-ok
                (fetch_pages services p.req attempts p.account p.opts rounds (page + 1) newest) _
                (rw full at e₁) in
            let whole : Gets idle (produce (produce run calls) (rest ++ end_of p newest' ∷ [])) =
              later newest (produce run calls) (rest, newest') more
                (next_page-Gets p' short stored (produce run calls) full at_end) in
            let joined : produce (produce run calls) (rest ++ end_of p newest' ∷ [])
                ≡ produce run ((calls ++ rest) ++ end_of p newest' ∷ []) =
              produce-append calls (rest ++ end_of p newest' ∷ []) run
              ∙ ap (produce run) (sym (append_assoc calls rest (end_of p newest' ∷ []))) in
            rw (← ok-injective e₂, ← joined) whole
      ]

  fetch_pages-Gets : (rounds page : ℕ) (p : Pages) → Done p page rounds
  unfolding fetch_pages
  fetch_pages-Gets zero page p newest run result e r = cc
  fetch_pages-Gets (suc rounds) page p newest run result e r =
      let (answer, called, e₁) =
        >>=-eq-ok
          (call_rpc_with_retries (services.get_signatures p.account p.opts page) (pos 5) attempts) _
          e in
      let (signatures, listed, e₂) = >>=-eq-ok (must answer) _ e₁ in
      fetch_rest-Gets page rounds (record p { new_last_signature = newest }) signatures run
        (fetch_pages-Gets rounds (page + 1) p) called listed e₂ r

  -- A whole `fetchAndParse` that returns is one way in which the first goroutine goes on from a
  -- request: with the other one standing still, its steps lead to the wait for the next request, and
  -- to the queue behind all its calls.
  pub fetch_and_parse-Runs :
      (rounds : ℕ) (req : SyncWalletRequest) (run : Run) {calls : List Append}
      → fetch_and_parse services req attempts rounds ≡ ok calls
      → Runs db sync start (still (starting req) run)
      → Runs db sync start (still idle (produce run calls))
  unfolding fetch_and_parse
  fetch_and_parse-Runs rounds req run e r =
      let (account, known, e₁) = >>=-eq-ok (must (services.public_key req.wallet_address)) _ e in
      let (until, parsed, e₂) =
        >>=-eq-ok (until_of services.parse_signature req.last_signature) _ e₁ in
      let opts : GetSignaturesOpts = record { limit = page_limit; until = until } in
      let ((pages, newest), paged, e₃) =
        >>=-eq-ok (fetch_pages services req attempts account opts rounds 0 "") _ e₂ in
      let p : Pages = record {
        req = req;
        account = account;
        opts = opts;
        new_last_signature = "";
      } in
      let begun : Gets (paging p) run =
        go r (fetches _ services attempts (paging p) run st (rw (known, parsed) refl)) in
      rw (← ok-injective e₃) (fetch_pages-Gets rounds 0 p "" run (pages, newest) paged begun)
