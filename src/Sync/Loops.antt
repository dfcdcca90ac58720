-- ===== src/Sync/Loops.antt =====
-- `RunWalletSync` of pkg/wallet_sync/wallet_sync.go: both goroutines, each between two of its calls
-- on the queue and on the database, so that their steps interleave in every way. The waiting for a
-- tick and the end of the context are no steps.
pub mod AtPage
pub mod Balanced
pub mod Bare
pub mod Calls
pub mod Delivered
pub mod Once
pub mod Queued
pub mod Whole
use tax_bro.Prelude.{
  ℕ, ◌≡◌, Bool, true, false, List, [], ◌∷◌, ◌++◌, map, String, eq_string, ◌==◌, ltb, length,
  if◌then◌else◌, Outcome, ok, ◌>>=◌, must, Fallible,
}
use tax_bro.Prelude.Int.{ℤ, pos, eq_int}
use tax_bro.Rpc.Retry.{call_rpc_with_retries}
use tax_bro.Rpc.Fetch.{fetch_transaction}
use tax_bro.Db.{Store}
use tax_bro.Db.Transactions.{Transaction, is_stored, get_transactions}
use tax_bro.Update.{Update, last, no_wallet}
use tax_bro.Update.Save.{save_transactions}
use tax_bro.Update.User.{link_signatures, set_last_signature, link_accounts}
use tax_bro.Process.{process_messages}
use tax_bro.Process.Schedule.{Run, initial}
use tax_bro.Sync.{
  one, Services, GetSignaturesOpts, page_limit, until_of, saved_messages, onchain_message,
}
use tax_bro.Sync.Store.{SyncWalletRequest, SyncStore}
use tax_bro.Sync.Requests.{load, update_status}
use tax_bro.Sync.Dedup.{deduplicate_timestamps}
use tax_bro.Sync.Produced.{produce}

-- The variables of `fetchAndParse` outside its loop.
pub record Pages : Type 0 where
  pub req : SyncWalletRequest
  pub account : String
  pub opts : GetSignaturesOpts
  pub new_last_signature : String

-- `starting`: before `fetchAndParse`. `paging`: before a page. `reading`: in the loop over the
-- signatures of a page, which is a short one or not, with the stored transactions.
pub data Fetcher : Type 0 where
  idle : Fetcher
  starting : SyncWalletRequest → Fetcher
  paging : Pages → Fetcher
  reading : Pages → Bool → List Transaction → List String → Fetcher

-- `processing`: before `processMessages`. The three behind `saving` are the parts of `updateUser`,
-- of which each commits what it writes.
pub data Saver : Type 0 where
  processing : Saver
  saving : Update → Saver
  linking : Update → Saver
  setting_last : Update → Saver
  linking_accounts : Update → Saver
  deduplicating : Saver

pub record Loops (db : Store) : Type 0 where
  pub fetcher : Fetcher
  pub saver : Saver
  pub run : Run
  pub st : db.State

abbrev pub started : (db : Store) → db.State → Loops db
started db st = record { fetcher = idle; saver = processing; run = initial; st = st }

module _ (services : Services) (attempts : ℕ) where
  abbrev pub started_pages : SyncWalletRequest → Outcome Fetcher
  started_pages req = do
    account ← must (services.public_key req.wallet_address)
    until ← until_of services.parse_signature req.last_signature
    ok (
        paging (record {
          req = req;
          account = account;
          opts = record { limit = page_limit; until = until };
          new_last_signature = "";
        }))

  -- The last append of `fetchAndParse`.
  abbrev pub finish : Pages → Run → Fetcher × Run
  finish p run = (
    idle,
    produce run (
        one (last (record { wallet_id = p.req.wallet_id; signature = p.new_last_signature })) ∷ []),
  )

  -- A page of signatures.
  abbrev pub turn : Pages → List String → Run → Outcome (Fetcher × Run)
  turn p [] run = ok (finish p run)
  turn p (s ∷ signatures) run = do
    let newest = if p.new_last_signature == "" then s else p.new_last_signature
    stored ← get_transactions (services.query_at 0) [] (s ∷ signatures)
    ok (
      reading (record p { new_last_signature = newest })
          (ltb (length (s ∷ signatures)) p.opts.limit) stored (s ∷ signatures),
      produce run (saved_messages services p.req stored),
    )

  abbrev pub get_page : Pages → Run → Outcome (Fetcher × Run)
  get_page p run = do
    answer ← call_rpc_with_retries (services.get_signatures p.account p.opts 0) (pos 5) attempts
    signatures ← must answer
    turn p signatures run

  -- A signature of a page, or the end of it.
  abbrev pub read : Pages → Bool → List Transaction → List String → Run → Outcome (Fetcher × Run)
  read p true stored [] run = ok (finish p run)
  read p false stored [] run = ok (paging p, run)
  read p short stored (s ∷ signatures) run =
      if is_stored stored s then ok (reading p short stored signatures, run) else (do
        tx ← fetch_transaction services.get_transaction attempts s
        ok (
          reading p short stored signatures,
          produce run (one (onchain_message services p.req tx) ∷ []),
        ))

module _ (db : Store) (sync : SyncStore db) where
  -- The loaded queue: its first request is marked, and fetched next.
  abbrev pub take_request : List SyncWalletRequest → db.State → Outcome (Fetcher × db.State)
  take_request [] st = ok (idle, st)
  take_request (req ∷ queue) st = do
    st' ← update_status db sync req "processing" st
    ok (starting req, st')

  -- The first goroutine, up to its next change that the other can see. The services answer each
  -- step as they will.
  abbrev pub fetch : Services → ℕ → Fetcher → Run → db.State → Outcome (Fetcher × Run × db.State)
  fetch services attempts idle run st = do
    queue ← load db sync st
    (fetcher, st') ← take_request queue st
    ok (fetcher, run, st')
  fetch services attempts (starting req) run st = do
    fetcher ← started_pages services attempts req
    ok (fetcher, run, st)
  fetch services attempts (paging p) run st = do
    (fetcher, run') ← get_page services attempts p run
    ok (fetcher, run', st)
  fetch services attempts (reading p short stored signatures) run st = do
    (fetcher, run') ← read services attempts p short stored signatures run
    ok (fetcher, run', st)

  -- The second goroutine.
  abbrev pub save :
      (List String → List String)
      → (ℕ → ℕ → Fallible (List String))
      → ℕ
      → Saver
      → Run
      → db.State
      → Outcome (Saver × Run × db.State)
  save iterate get_block fuel processing run st = do
    (queue, u) ← process_messages run.queue
    ok (
      if u.wallet_id == no_wallet then processing else saving u,
      record run { queue = queue; updates = run.updates ++ u ∷ [] },
      st,
    )
  save iterate get_block fuel (saving u) run st = do
    (u', st') ← save_transactions db iterate u st
    ok (linking u', run, st')
  save iterate get_block fuel (linking u) run st = do
    st' ← link_signatures db u st
    ok (setting_last u, run, st')
  save iterate get_block fuel (setting_last u) run st = do
    st' ← set_last_signature db u st
    ok (linking_accounts u, run, st')
  save iterate get_block fuel (linking_accounts u) run st = do
    st' ← link_accounts db u st
    ok (deduplicating, run, st')
  save iterate get_block fuel deduplicating run st = do
    st' ← deduplicate_timestamps get_block fuel db sync fuel st
    ok (processing, run, st')

  -- A step that ends in a fault ends the process.
  pub data Step : Loops db → Loops db → Type 0 where
    fetches :
        (s : Loops db) (services : Services) (attempts : ℕ) (fetcher : Fetcher) (run : Run)
        (st : db.State)
        → fetch services attempts s.fetcher s.run s.st ≡ ok (fetcher, run, st)
        → Step s (record s { fetcher = fetcher; run = run; st = st })
    saves :
        (s : Loops db) (iterate : List String → List String)
        (get_block : ℕ → ℕ → Fallible (List String)) (fuel : ℕ) (saver : Saver) (run : Run)
        (st : db.State)
        → save iterate get_block fuel s.saver s.run s.st ≡ ok (saver, run, st)
        → Step s (record s { saver = saver; run = run; st = st })

  pub data Runs (s : Loops db) : Loops db → Type 0 where
    begin : Runs s s
    go : {t u : Loops db} → Runs s t → Step t u → Runs s u
