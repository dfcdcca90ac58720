-- ===== src/Db.antt =====
-- The rows and the statements of pkg/wallet_sync/db.go and of the saving half of
-- pkg/wallet_sync/wallet_sync.go. The database is a service: `Store` has one operation for each
-- statement, which may fail, and Db/Lawful says what its documentation promises of them.
pub mod Order
pub mod Selected
pub mod Lawful
pub mod Saves
pub mod Transactions
use tax_bro.Prelude.{
  ℕ, Bool, List, [], ◌∷◌, ◌++◌, Option, String, Fallible, value, error, eq_string, ◌==◌,
  if◌then◌else◌, Outcome, ok, ◌>>=◌, must,
}
use tax_bro.Prelude.Int.{ℤ, pos}
use tax_bro.Text.{Bytes}

pub record Signature : Type 0 where
  pub id : ℤ
  pub val : String

pub record Account : Type 0 where
  pub id : ℤ
  pub address : String
  pub ord : ℤ

-- The maps that the three insert statements take.
pub record TransactionRow : Type 0 where
  pub signature_id : ℤ
  pub accounts_ids : List ℤ
  pub timestamp : ℕ
  pub timestamp_granularized : ℕ
  pub slot : ℕ
  pub err : Bool
  pub fee : ℕ
  pub logs : List Bytes

pub record InstructionRow : Type 0 where
  pub signature_id : ℤ
  pub index : ℤ
  pub program_account_id : ℤ
  pub accounts_ids : List ℤ
  pub payload : Bytes

pub record InnerInstructionRow : Type 0 where
  pub signature_id : ℤ
  pub ix_index : ℤ
  pub index : ℤ
  pub program_account_id : ℤ
  pub accounts_ids : List ℤ
  pub payload : Bytes

-- One operation for each statement. `insert_inner_instructions` is the third insert of
-- `saveTransactions`, which names the table `instruction` in the code. `link_signatures` and `link_accounts` return the count of the
-- rows that they inserted.
pub record Store : Type 1 where
  pub State : Type 0
  pub begin : State → Fallible State
  pub commit : State → Fallible State
  pub insert_signatures : List String → State → Fallible (List Signature × State)
  pub select_addresses : List String → State → Fallible (List Account)
  pub insert_addresses : List String → State → Fallible (List Account × State)
  pub insert_transactions : List TransactionRow → State → Fallible State
  pub insert_instructions : List InstructionRow → State → Fallible State
  pub insert_inner_instructions : List InnerInstructionRow → State → Fallible State
  pub link_signatures : List ℤ → List ℤ → State → Fallible (ℕ × State)
  pub add_signatures : ℤ → ℤ → State → Fallible State
  pub set_last_signature : String → ℤ → State → Fallible State
  pub select_unlinked : List String → State → List Account
  pub link_accounts : List ℤ → List ℤ → State → Fallible (ℕ × State)
  pub add_accounts : ℤ → ℤ → State → Fallible State

-- `getId` on `signatures`: the first row with the value.
unfoldable pub signature_id : List Signature → String → Fallible ℤ
signature_id [] signature = error
signature_id (s ∷ ss) signature =
    if s.val == signature then value s.id else signature_id ss signature

-- `getId` on `accounts`
unfoldable pub account_id : List Account → String → Fallible ℤ
account_id [] address = error
account_id (a ∷ accounts) address =
    if a.address == address then value a.id else account_id accounts address

-- `slices.IndexFunc(savedAddresses, …) == -1`
unfoldable pub is_unsaved : List Account → String → Bool
is_unsaved [] address = Bool.true
is_unsaved (sa ∷ saved) address =
    if sa.address == address then Bool.false else is_unsaved saved address

-- The loop that fills `unsavedAddresses`.
unfoldable pub unsaved_addresses : List Account → List String → List String
unfolding is_unsaved
unsaved_addresses saved [] = []
unsaved_addresses saved (a ∷ addresses) =
    let rest = unsaved_addresses saved addresses in if is_unsaved saved a then a ∷ rest else rest

module _ (db : Store) where
  -- `save` on `signatures`
  unfoldable pub save_signatures :
      List Signature → List String → db.State → Outcome (List Signature × db.State)
  save_signatures s [] st = ok (s, st)
  save_signatures s (signature ∷ insertable) st = do
    (inserted, st') ← must (db.insert_signatures (signature ∷ insertable) st)
    ok (s ++ inserted, st')

  unfoldable pub insert_unsaved :
      List Account → List String → db.State → Outcome (List Account × db.State)
  insert_unsaved a [] st = ok (a, st)
  insert_unsaved a (address ∷ unsaved) st = do
    (inserted, st') ← must (db.insert_addresses (address ∷ unsaved) st)
    ok (a ++ inserted, st')

  -- `save` on `accounts`. `iterate` is the order in which Go ranges over the keys of the map.
  unfoldable pub save_accounts :
      (List String → List String)
      → List Account
      → List String
      → db.State
      → Outcome (List Account × db.State)
  unfolding insert_unsaved unsaved_addresses
  save_accounts iterate a [] st = ok (a, st)
  save_accounts iterate a (address ∷ unique) st = do
    let insertable = iterate (address ∷ unique)
    saved ← must (db.select_addresses insertable st)
    insert_unsaved (a ++ saved) (unsaved_addresses saved insertable) st
