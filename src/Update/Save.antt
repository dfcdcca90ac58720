-- ===== src/Update/Save.antt =====
-- `saveTransactions` of pkg/wallet_sync/wallet_sync.go. A fault ends the process, and the database
-- rolls the transaction back; so a fault has no state.
pub mod Counted
pub mod Rows
use tax_bro.Prelude.{
  ℕ, List, [], ◌∷◌, ◌++◌, map, String, contains, eq_string, if◌then◌else◌, Outcome, ok, must, ◌>>=◌,
}
use tax_bro.Prelude.Int.{ℤ}
use tax_bro.Rpc.{OnchainTransaction}
use tax_bro.Db.{Store, Signature, Account, save_signatures, save_accounts}
use tax_bro.Update.{Update}
use tax_bro.Update.Prepare.{InsertableComponents, prepare_insertable_components}

-- `m[key] = true`: a map to `bool` is the list of its keys.
abbrev pub add_key : List String → String → List String
add_key keys a = if contains keys a then keys else keys ++ a ∷ []

abbrev pub add_keys : List String → List String → List String
add_keys keys [] = keys
add_keys keys (a ∷ rest) = add_keys (add_key keys a) rest

-- The first loop's `insertableAddresses`.
abbrev pub insertable_addresses : List String → List OnchainTransaction → List String
insertable_addresses keys [] = keys
insertable_addresses keys (tx ∷ txs) = insertable_addresses (add_keys keys tx.accounts) txs

abbrev pub signatures_of : List OnchainTransaction → List String
signatures_of = map (λ tx. tx.signature)

module _ (db : Store) where
  -- A statement that is left out if there are no rows.
  abbrev pub insert_rows {ℓ} :
      {R : Type ℓ} → (List R → db.State → Outcome db.State) → List R → db.State → Outcome db.State
  insert_rows insert [] st = ok st
  insert_rows insert (r ∷ rows) st = insert (r ∷ rows) st

  -- The three inserts and the commit.
  unfoldable pub insert_components : InsertableComponents → db.State → Outcome db.State
  insert_components c st = do
    st₁ ← insert_rows (λ rows s. must (db.insert_transactions rows s)) c.txs st
    st₂ ← insert_rows (λ rows s. must (db.insert_instructions rows s)) c.ixs st₁
    st₃ ← insert_rows (λ rows s. must (db.insert_inner_instructions rows s)) c.inner_ixs st₂
    must (db.commit st₃)

  unfoldable pub save_transactions :
      (List String → List String) → Update → db.State → Outcome (Update × db.State)
  save_transactions iterate u st = do
    st₀ ← must (db.begin st)
    (sigs, st₁) ← save_signatures db [] (signatures_of u.transactions) st₀
    let u' : Update = record u { signatures_ids = u.signatures_ids ++ map (λ s. s.id) sigs }
    (accts, st₂) ← save_accounts db iterate [] (insertable_addresses [] u.transactions) st₁
    components ← prepare_insertable_components u.transactions sigs accts
    st₃ ← insert_components components st₂
    ok (u', st₃)
