-- ===== src/Sync/Loops/AtPage.antt =====
-- The services of `fetchAndParse` in pkg/wallet_sync/wallet_sync.go at one page: what it makes of
-- their answers is the same.
use tax_bro.Prelude.{ℕ, ◌≡◌, refl, ap, List, [], ◌∷◌, ◌++◌, map, eq_string}
use tax_bro.Rpc.{OnchainInstruction, OnchainTransaction}
use tax_bro.Db.Transactions.{Instruction, Transaction}
use tax_bro.Process.Schedule.{Run}
use tax_bro.Sync.{
  Append, one, many, Services, stored_accounts, saved_message, saved_messages, parse_instructions,
  onchain_message,
}
use tax_bro.Sync.Store.{SyncWalletRequest}
use tax_bro.Sync.Produced.{produce}

-- The services as they answer at a page.
abbrev pub at_page : Services → ℕ → Services
at_page services page = record services {
  get_signatures = λ account opts later. services.get_signatures account opts page;
  query_at = λ later. services.query_at page;
}

pub produce-append :
    (front back : List Append) (run : Run)
    → produce (produce run front) back ≡ produce run (front ++ back)
produce-append [] back run = refl
produce-append (one m ∷ front) back run = produce-append front back _
produce-append (many ms ∷ front) back run = produce-append front back _

module _ (services : Services) (page : ℕ) (req : SyncWalletRequest) where
  stored_accounts-at_page :
      (ixs : List Instruction)
      → stored_accounts (at_page services page) req ixs ≡ stored_accounts services req ixs
  stored_accounts-at_page [] = refl
  stored_accounts-at_page (ix ∷ ixs) = rw (stored_accounts-at_page ixs) refl

  parse_instructions-at_page :
      (ixs : List OnchainInstruction)
      → parse_instructions (at_page services page) req ixs ≡ parse_instructions services req ixs
  parse_instructions-at_page [] = refl
  parse_instructions-at_page (ix ∷ ixs) = rw (parse_instructions-at_page ixs) refl

  onchain_message-at_page :
      (tx : OnchainTransaction)
      → onchain_message (at_page services page) req tx ≡ onchain_message services req tx
  unfolding onchain_message
  onchain_message-at_page tx = rw (parse_instructions-at_page tx.ixs) refl

  saved_message-at_page :
      (tx : Transaction)
      → saved_message (at_page services page) req tx ≡ saved_message services req tx
  unfolding saved_message
  saved_message-at_page tx = rw (stored_accounts-at_page tx.ixs) refl

  saved_all :
      (txs : List Transaction)
      → map (saved_message (at_page services page) req) txs ≡ map (saved_message services req) txs
  saved_all [] = refl
  saved_all (tx ∷ txs) = rw (saved_message-at_page tx, saved_all txs) refl

  pub saved_messages-at_page :
      (txs : List Transaction)
      → saved_messages (at_page services page) req txs ≡ saved_messages services req txs
  saved_messages-at_page [] = refl
  saved_messages-at_page (tx ∷ txs) = ap (λ ms. many ms ∷ []) (saved_all (tx ∷ txs))
