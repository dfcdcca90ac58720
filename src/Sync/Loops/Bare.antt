-- ===== src/Sync/Loops/Bare.antt =====
-- The messages of `fetchAndParse` in pkg/wallet_sync/wallet_sync.go have no accounts, since `Parse`
-- of pkg/instructions_parser/parser.go finds none.
use tax_bro.Prelude.{
  ◌≡◌, refl, sym, Bool-cases, inl, inr, List, [], ◌∷◌, ◌++◌, map, flat_map, select, All, String,
  eq_string, ◌==◌, ok,
}
use tax_bro.Prelude.Int.{ℤ, eq_int, int_eq_iff}
use tax_bro.Parser.{ParsableInstruction, parse}
use tax_bro.Rpc.{OnchainInstruction, OnchainTransaction}
use tax_bro.Db.Transactions.{Instruction, Transaction, parse_stored}
use tax_bro.Queue.{MsgQueue}
use tax_bro.Update.{Msg, Update}
use tax_bro.Process.{process_messages}
use tax_bro.Process.Batch.{accounts_of}
use tax_bro.Process.Schedule.{HasWallet, delivered}
use tax_bro.Process.Results.{of_wallet}
use tax_bro.Sync.{
  Services, stored_accounts, saved_message, saved_messages, parse_instructions, onchain_message,
}
use tax_bro.Sync.Store.{SyncWalletRequest}
use tax_bro.Sync.Produced.{appended}

abbrev pub IsBare : Msg → Type 0
IsBare m = accounts_of m ≡ []

parse-nothing :
    (id : String) (ix : ParsableInstruction) (inner : List ParsableInstruction)
    → (parse id ix inner).1 ≡ []
unfolding parse
parse-nothing id ix inner = elim (Bool-cases (ix.get_program_address == id)) [
  | inl same ↦ rw same refl
  | inr other ↦ rw other refl
]

module _ (services : Services) (req : SyncWalletRequest) where
  stored_accounts-nothing : (ixs : List Instruction) → stored_accounts services req ixs ≡ []
  unfolding parse_stored
  stored_accounts-nothing [] = refl
  stored_accounts-nothing (ix ∷ ixs) =
      rw (parse-nothing services.system_program_id _ _, stored_accounts-nothing ixs) refl

  parse_instructions-nothing :
      (ixs : List OnchainInstruction) → (parse_instructions services req ixs).1 ≡ []
  parse_instructions-nothing [] = refl
  parse_instructions-nothing (ix ∷ ixs) =
      rw (parse-nothing services.system_program_id _ _, parse_instructions-nothing ixs) refl

  saved_all : (txs : List Transaction) → All IsBare (map (saved_message services req) txs)
  unfolding saved_message
  saved_all [] = tt
  saved_all (tx ∷ txs) = (stored_accounts-nothing tx.ixs, saved_all txs)

  pub saved_messages-IsBare :
      (txs : List Transaction)
      → All (λ a. All IsBare (appended a)) (saved_messages services req txs)
  saved_messages-IsBare [] = tt
  saved_messages-IsBare (tx ∷ txs) = (saved_all (tx ∷ txs), tt)

  pub onchain_message-IsBare : (tx : OnchainTransaction) → IsBare (onchain_message services req tx)
  unfolding onchain_message
  onchain_message-IsBare tx = parse_instructions-nothing tx.ixs

-- An update of messages without accounts has none.
select-nothing :
    (w : ℤ) (ms : List Msg) → All IsBare ms → flat_map accounts_of (select (of_wallet w) ms) ≡ []
select-nothing w [] h = refl
select-nothing w (m ∷ ms) h = elim (Bool-cases (of_wallet w m)) [
  | inl own ↦ rw (own, h.0, select-nothing w ms h.1) refl
  | inr other ↦ rw (other, select-nothing w ms h.1) refl
]

append-nothing {ℓ} : {A : Type ℓ} (xs ys : List A) → [] ≡ xs ++ ys → xs ≡ []
append-nothing [] ys h = refl
append-nothing (x ∷ xs) ys h = cc

pub process_messages-IsBare :
    (queue queue' : MsgQueue Msg) (u : Update)
    → All HasWallet queue.items
    → All IsBare queue.items
    → process_messages queue ≡ ok (queue', u)
    → u.associated_accounts ≡ []
process_messages-IsBare queue queue' u valid bare e =
    let g : Update → List _ = λ u. u.associated_accounts in
    let own =
      delivered accounts_of g (λ v ms. refl) refl u.wallet_id queue.items queue' u valid e in
    let none : [] ≡ (u.associated_accounts ++ []) ++ _ =
      rw (select-nothing u.wallet_id queue.items bare, (int_eq_iff u.wallet_id u.wallet_id).1 refl)
        at own in
    append-nothing u.associated_accounts []
      (sym (append-nothing (u.associated_accounts ++ []) _ none))
