-- ===== src/Sync/Loops/Calls.antt =====
-- What a step of the first goroutine of `RunWalletSync` in pkg/wallet_sync/wallet_sync.go does to the
-- queue.
use tax_bro.Prelude.{
  ℕ, ◌≡◌, ◌≢◌, refl, Bool, true, false, Bool-cases, inl, inr, List, [], ◌∷◌, All, String, eq_string,
  ok, >>=-eq-ok, ok-injective, must, value, must-eq-ok,
}
use tax_bro.Prelude.Int.{pos}
use tax_bro.Rpc.Retry.{call_rpc_with_retries}
use tax_bro.Rpc.Fetch.{fetch_transaction}
use tax_bro.Db.{Store}
use tax_bro.Db.Transactions.{Transaction, is_stored, get_transactions}
use tax_bro.Update.{no_wallet, last}
use tax_bro.Process.Schedule.{Run, HasWallet}
use tax_bro.Sync.{Append, one, Services, until_of, saved_messages, onchain_message}
use tax_bro.Sync.Store.{SyncWalletRequest, SyncStore}
use tax_bro.Sync.Requests.{load, update_status}
use tax_bro.Sync.Produced.{appended, produce, saved_messages-OfWallet, calls-HasWallet}
use tax_bro.Sync.Loops.{
  Pages, Fetcher, idle, starting, paging, reading, started_pages, finish, turn, get_page, read,
  take_request, fetch,
}
use tax_bro.Sync.Loops.Bare.{IsBare, saved_messages-IsBare, onchain_message-IsBare}

-- The identifiers of wallets are those of a serial column, which are positive.
abbrev pub HasWallets : (db : Store) → SyncStore db → Type 0
HasWallets db sync =
    (st : db.State) (queue : List SyncWalletRequest)
    → sync.select_queued st ≡ value queue
    → All (λ req. req.wallet_id ≢ no_wallet) queue

-- The first goroutine is not at a request without a wallet.
abbrev pub OfWallets : Fetcher → Type 0
OfWallets idle = Unit
OfWallets (starting req) = req.wallet_id ≢ no_wallet
OfWallets (paging p) = p.req.wallet_id ≢ no_wallet
OfWallets (reading p short stored signatures) = p.req.wallet_id ≢ no_wallet

-- A step makes calls on the queue, of messages without accounts. If the law holds, they have a
-- wallet.
pub record Made (Law : Type 0) (fetcher : Fetcher) (run : Run) (fetcher' : Fetcher) (run' : Run)
    : Type 0 where
  pub calls : List Append
  pub same : run' ≡ produce run calls
  pub bare : All (λ a. All IsBare (appended a)) calls
  pub valid :
      Law → OfWallets fetcher → OfWallets fetcher' × All (λ a. All HasWallet (appended a)) calls

module _ (Law : Type 0) (services : Services) (attempts : ℕ) where
  finish-Made :
      (p : Pages) (run : Run)
      → Made Law
          (paging p)
          run
          (finish services attempts p run).0
          (finish services attempts p run).1
  finish-Made p run =
      let end : Append =
        one (last (record { wallet_id = p.req.wallet_id; signature = p.new_last_signature })) in
      record {
        calls = end ∷ [];
        same = refl;
        bare = ((refl, tt), tt);
        valid = λ law h. (tt, calls-HasWallet services p.req h (end ∷ []) ((refl, tt), tt));
      }

  turn-Made :
      (p : Pages) (signatures : List String) (run : Run) {r : Fetcher × Run}
      → turn services attempts p signatures run ≡ ok r
      → Made Law (paging p) run r.0 r.1
  turn-Made p [] run e = rw (← ok-injective e) (finish-Made p run)
  turn-Made p (s ∷ signatures) run e =
      let (stored, got, e₁) =
        >>=-eq-ok (get_transactions (services.query_at 0) [] (s ∷ signatures)) _ e in
      rw (← ok-injective e₁) (record {
        calls = saved_messages services p.req stored;
        same = refl;
        bare = saved_messages-IsBare services p.req stored;
        valid = λ law h. (
          h,
          calls-HasWallet services p.req h (saved_messages services p.req stored)
              (saved_messages-OfWallet services p.req stored),
        );
      })

  read-Made :
      (p : Pages) (short : Bool) (stored : List Transaction) (signatures : List String) (run : Run)
      {r : Fetcher × Run}
      → read services attempts p short stored signatures run ≡ ok r
      → Made Law (paging p) run r.0 r.1
  unfolding onchain_message
  read-Made p true stored [] run e = rw (← ok-injective e) (finish-Made p run)
  read-Made p false stored [] run e =
      rw (← ok-injective e)
        (record { calls = []; same = refl; bare = tt; valid = λ law h. (h, tt) })
  read-Made p short stored (s ∷ signatures) run e = elim (Bool-cases (is_stored stored s)) [
    | inl known ↦
        rw (← ok-injective (rw known at e))
          (record { calls = []; same = refl; bare = tt; valid = λ law h. (h, tt) })
    | inr new ↦
        let (tx, got, e₁) =
          >>=-eq-ok (fetch_transaction services.get_transaction attempts s) _ (rw new at e) in
        let fetched : Append = one (onchain_message services p.req tx) in
        rw (← ok-injective e₁) (record {
          calls = fetched ∷ [];
          same = refl;
          bare = ((onchain_message-IsBare services p.req tx, tt), tt);
          valid = λ law h. (h, calls-HasWallet services p.req h (fetched ∷ []) ((refl, tt), tt));
        })
  ]

  get_page-Made :
      (p : Pages) (run : Run) {r : Fetcher × Run}
      → get_page services attempts p run ≡ ok r
      → Made Law (paging p) run r.0 r.1
  get_page-Made p run e =
      let (answer, called, e₁) =
        >>=-eq-ok
          (call_rpc_with_retries (services.get_signatures p.account p.opts 0) (pos 5) attempts) _
          e in
      let (signatures, listed, e₂) = >>=-eq-ok (must answer) _ e₁ in turn-Made p signatures run e₂

module _ (db : Store) (sync : SyncStore db) where
  started_pages-OfWallets :
      (services : Services) (attempts : ℕ) (req : SyncWalletRequest) {fetcher : Fetcher}
      → started_pages services attempts req ≡ ok fetcher
      → req.wallet_id ≢ no_wallet
      → OfWallets fetcher
  started_pages-OfWallets services attempts req e h =
      let (account, known, e₁) = >>=-eq-ok (must (services.public_key req.wallet_address)) _ e in
      let (until, parsed, e₂) =
        >>=-eq-ok (until_of services.parse_signature req.last_signature) _ e₁ in
      rw (← ok-injective e₂) h

  take_request-OfWallets :
      (queue : List SyncWalletRequest) (st : db.State) {r : Fetcher × db.State}
      → take_request db sync queue st ≡ ok r
      → All (λ req. req.wallet_id ≢ no_wallet) queue
      → OfWallets r.0
  take_request-OfWallets [] st e h = rw (← ok-injective e) tt
  take_request-OfWallets (req ∷ queue) st e h =
      let (st', marked, e₁) = >>=-eq-ok (update_status db sync req "processing" st) _ e in
      rw (← ok-injective e₁) h.0

  pub fetch-Made :
      (services : Services) (attempts : ℕ) (fetcher : Fetcher) (run : Run) (st : db.State)
      {r : Fetcher × Run × db.State}
      → fetch db sync services attempts fetcher run st ≡ ok r
      → Made (HasWallets db sync) fetcher run r.0 r.1
  unfolding load
  fetch-Made services attempts idle run st e =
      let (queue, loaded, e₁) = >>=-eq-ok (load db sync st) _ e in
      let ((fetcher, st'), taken, e₂) = >>=-eq-ok (take_request db sync queue st) _ e₁ in
      rw (← ok-injective e₂) (record {
        calls = [];
        same = refl;
        bare = tt;
        valid = λ law h.
            (take_request-OfWallets queue st taken (law st queue (must-eq-ok _ loaded)), tt);
      })
  fetch-Made services attempts (starting req) run st e =
      let (fetcher, begun, e₁) = >>=-eq-ok (started_pages services attempts req) _ e in
      rw (← ok-injective e₁) (record {
        calls = [];
        same = refl;
        bare = tt;
        valid = λ law h. (started_pages-OfWallets services attempts req begun h, tt);
      })
  fetch-Made services attempts (paging p) run st e =
      let ((fetcher, run'), got, e₁) = >>=-eq-ok (get_page services attempts p run) _ e in
      rw (← ok-injective e₁) (get_page-Made (HasWallets db sync) services attempts p run got)
  fetch-Made services attempts (reading p short stored signatures) run st e =
      let ((fetcher, run'), got, e₁) =
        >>=-eq-ok (read services attempts p short stored signatures run) _ e in
      let made =
        read-Made (HasWallets db sync) services attempts p short stored signatures run got in
      rw (← ok-injective e₁) (record {
        calls = made.calls;
        same = made.same;
        bare = made.bare;
        valid = λ law h. made.valid law h;
      })
