-- ===== src/Sync.antt =====
-- `fetchAndParse` of pkg/wallet_sync/wallet_sync.go, which fills the queue. The RPC client and the
-- database are services: `Services` has one operation for each call of them.
pub mod Dedup
pub mod Loops
pub mod Page
pub mod Produced
pub mod Requests
pub mod Store
use tax_bro.Prelude.{
  ℕ, zero, suc, ◌+◌, Bool, List, [], ◌∷◌, ◌++◌, map, Option, none, some, String, eq_string, ◌==◌,
  ltb, length, if◌then◌else◌, Outcome, ok, fault, out_of_fuel, ◌>>=◌, must, Fallible, value,
}
use tax_bro.Prelude.Int.{ℤ, pos}
use tax_bro.Parser.{AssociatedAccount, parse}
use tax_bro.Rpc.{as_parsable, OnchainInstruction, OnchainTransaction}
use tax_bro.Rpc.Retry.{call_rpc_with_retries}
use tax_bro.Rpc.Fetch.{GetTransactionResult, fetch_transaction}
use tax_bro.Db.Transactions.{
  Instruction, Transaction, QueryResult, parse_stored, is_stored, get_transactions,
}
use tax_bro.Queue.{MsgQueue, append, append_messages}
use tax_bro.Sync.Store.{SyncWalletRequest}
use tax_bro.Update.{Msg, saved, onchain, last}

-- rpc.GetSignaturesForAddressOpts, the fields that the code sets.
pub record GetSignaturesOpts : Type 0 where
  pub limit : ℕ
  pub until : Option String

-- Keys and signatures are the texts that their `String()` gives. A later page of signatures is a
-- later call, and so is each attempt: both numbers are arguments of the answer. `query_at` is the
-- statement of `transactions.Get` at the page.
pub record Services : Type 0 where
  pub public_key : String → Fallible String
  pub parse_signature : String → Fallible String
  pub get_signatures : String → GetSignaturesOpts → ℕ → ℕ → Fallible (List String)
  pub get_transaction : String → ℕ → Fallible GetTransactionResult
  pub query_at : ℕ → List String → Fallible (List QueryResult)
  pub system_program_id : String

-- A call of `queue.append` or of `queue.appendMessages`.
pub data Append : Type 0 where
  one : Msg → Append
  many : List Msg → Append

abbrev pub page_limit : ℕ
page_limit = 100

abbrev pub until_of : (String → Fallible String) → Option String → Outcome (Option String)
until_of parse_signature none = ok none
until_of parse_signature (some text) = do
  signature ← must (parse_signature text)
  ok (some signature)

module _ (services : Services) (req : SyncWalletRequest) where
  -- The loop over the instructions of a stored transaction.
  abbrev pub stored_accounts : List Instruction → List AssociatedAccount
  stored_accounts [] = []
  stored_accounts (ix ∷ ixs) = (parse_stored services.system_program_id ix).1 ++ stored_accounts ixs

  -- The loop over the stored transactions.
  unfoldable pub saved_message : Transaction → Msg
  saved_message tx = saved (record {
    wallet_id = req.wallet_id;
    signature_id = tx.signature_id;
    accounts = stored_accounts tx.ixs;
  })

  abbrev pub saved_messages : List Transaction → List Append
  saved_messages [] = []
  saved_messages (tx ∷ txs) = many (map saved_message (tx ∷ txs)) ∷ []

  -- The events are appended in place, to the instructions that the message's transaction shares.
  abbrev pub parse_instruction : OnchainInstruction → OnchainInstruction × List AssociatedAccount
  parse_instruction ix =
      let (events, accounts) =
        parse services.system_program_id (as_parsable ix.base) (map as_parsable ix.inner_ixs) in
      (record ix { events = ix.events ++ events }, accounts)

  abbrev pub parse_instructions :
      List OnchainInstruction → List OnchainInstruction × List AssociatedAccount
  parse_instructions [] = ([], [])
  parse_instructions (ix ∷ ixs) =
      let (ix', accounts) = parse_instruction ix in
      let (ixs', rest) = parse_instructions ixs in (ix' ∷ ixs', accounts ++ rest)

  unfoldable pub onchain_message : OnchainTransaction → Msg
  onchain_message tx =
      let (ixs, accounts) = parse_instructions tx.ixs in
      onchain (record {
        wallet_id = req.wallet_id;
        transaction = record tx { ixs = ixs };
        accounts = accounts;
      })

  -- The loop over the signatures of a page. `attempts` bounds the attempts of each fetch.
  unfoldable pub fetch_unsaved : ℕ → List Transaction → List String → Outcome (List Append)
  fetch_unsaved attempts stored [] = ok []
  fetch_unsaved attempts stored (signature ∷ signatures) =
      if is_stored stored signature then fetch_unsaved attempts stored signatures else (do
        tx ← fetch_transaction services.get_transaction attempts signature
        rest ← fetch_unsaved attempts stored signatures
        ok (one (onchain_message tx) ∷ rest))

  -- What a page that is not empty appends.
  unfoldable pub fetch_page : ℕ → ℕ → List String → Outcome (List Append)
  fetch_page attempts page signatures = do
    stored ← get_transactions (services.query_at page) [] signatures
    fetched ← fetch_unsaved attempts stored signatures
    ok (saved_messages stored ++ fetched)

  module _ (attempts : ℕ) (account : String) (opts : GetSignaturesOpts) where
    -- The body of the `for` loop behind the call, with the rounds that come later.
    unfoldable pub fetch_rest :
        ℕ
        → String
        → (String → Outcome (List Append × String))
        → List String
        → Outcome (List Append × String)
    fetch_rest page new_last_signature later [] = ok ([], new_last_signature)
    fetch_rest page new_last_signature later (s ∷ signatures) = do
      let newest = if new_last_signature == "" then s else new_last_signature
      appends ← fetch_page attempts page (s ∷ signatures)
      (if ltb (length (s ∷ signatures)) opts.limit
          then ok (appends, newest)
          else (do (rest, newest') ← later newest; ok (appends ++ rest, newest')))

    -- The `for` loop, from a page on: what it appends, and `newLastSignature`. The options are the
    -- same in each round; `rounds` bounds the rounds.
    unfoldable pub fetch_pages : ℕ → ℕ → String → Outcome (List Append × String)
    unfolding fetch_rest
    fetch_pages zero page new_last_signature = fault out_of_fuel
    fetch_pages (suc rounds) page new_last_signature = do
      answer ← call_rpc_with_retries (services.get_signatures account opts page) (pos 5) attempts
      signatures ← must answer
      fetch_rest page new_last_signature (fetch_pages rounds (page + 1)) signatures

  -- The calls on the queue, in order.
  unfoldable pub fetch_and_parse : ℕ → ℕ → Outcome (List Append)
  fetch_and_parse attempts rounds = do
    account ← must (services.public_key req.wallet_address)
    until ← until_of services.parse_signature req.last_signature
    (appends, newest) ←
        fetch_pages attempts account (record { limit = page_limit; until = until }) rounds 0 ""
    ok (appends ++ one (last (record { wallet_id = req.wallet_id; signature = newest })) ∷ [])

abbrev pub run_append : MsgQueue Msg → Append → MsgQueue Msg
run_append q (one msg) = append q msg
run_append q (many msgs) = append_messages q msgs
