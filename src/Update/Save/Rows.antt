-- ===== src/Update/Save/Rows.antt =====
-- `saveTransactions` of pkg/wallet_sync/wallet_sync.go: what it inserts.
use text.Mathlib.TextEquality.{eq_iff}
use text.Mathlib.TextPositions.{eq_refl}
use tax_bro.Prelude.{
  ◌≡◌, refl, ◌||◌, true, Bool-cases, inl, inr, List, [], ◌∷◌, ◌++◌, map, flat_map, String, All,
  contains, eq_string, ◌==◌, Outcome, ok, must, ◌>>=◌, >>=-cong, arith,
}
use tax_bro.Rpc.{OnchainTransaction}
use tax_bro.Rpc.Fetch.Closed.{IsClosed}
use tax_bro.Db.{Store, Signature, Account, save_signatures, save_accounts}
use tax_bro.Db.Lawful.{IsLawful, values, addresses}
use tax_bro.Db.Saves.{
  save_signatures-found, save_accounts-found, contains-signature_id, contains-account_id,
}
use tax_bro.Update.{Update}
use tax_bro.Update.Prepare.{InsertableComponents, prepare_insertable_components}
use tax_bro.Update.Prepare.Rows.{instruction_rows, all_inner_rows}
use tax_bro.Update.Prepare.Components.{
  IsSaved, sid_of, transaction_row, prepare_insertable_components-rows,
}
use tax_bro.Update.Save.{
  add_key, add_keys, insertable_addresses, signatures_of, insert_components, save_transactions,
}

contains-append :
    (xs ys : List String) (a : String) → contains (xs ++ ys) a ≡ (contains xs a || contains ys a)
contains-append [] ys a = refl
contains-append (x ∷ xs) ys a = ground (arith, contains-append xs ys a)

contains-add_key :
    (keys : List String) (b a : String)
    → contains (add_key keys b) a ≡ (contains keys a || (b == a))
contains-add_key keys b a = elim (Bool-cases (contains keys b)) [
  | inl old ↦ ground (arith, eq_iff b a)
  | inr new ↦ rw (new, contains-append) (ground arith)
]

contains-add_keys :
    (keys texts : List String) (a : String)
    → contains (add_keys keys texts) a ≡ (contains keys a || contains texts a)
contains-add_keys keys [] a = ground arith
contains-add_keys keys (b ∷ texts) a =
    ground (arith, contains-add_keys (add_key keys b) texts a, contains-add_key keys b a)

insertable-contains_key :
    (keys : List String) (txs : List OnchainTransaction) (a : String)
    → contains keys a ≡ true
    → contains (insertable_addresses keys txs) a ≡ true
insertable-contains_key keys [] a h = h
insertable-contains_key keys (tx ∷ txs) a h =
    insertable-contains_key (add_keys keys tx.accounts) txs a
      (rw (contains-add_keys keys tx.accounts a, h))

All_of_contains :
    (P : String → Type 0) (texts : List String)
    → ((a : String) → contains texts a ≡ true → P a)
    → All P texts
All_of_contains P [] h = tt
All_of_contains P (a ∷ texts) h =
    (h a (rw (eq_refl a) refl), All_of_contains P texts (λ b among. h b (ground (arith, among))))

-- Every account of every transaction is saved, and nothing but a promise on all addresses asked
-- for is needed.
accounts_all :
    (P : String → Type 0) (keys : List String) (txs : List OnchainTransaction)
    → ((a : String) → contains (insertable_addresses keys txs) a ≡ true → P a)
    → All (λ tx. All P tx.accounts) txs
accounts_all P keys [] h = tt
accounts_all P keys (tx ∷ txs) h = (
  All_of_contains P tx.accounts (λ a among. h a (
      insertable-contains_key (add_keys keys tx.accounts) txs a
        (ground (arith, contains-add_keys keys tx.accounts a)))),
  accounts_all P (add_keys keys tx.accounts) txs h,
)

signatures_all :
    (P : String → Type 0) (txs : List OnchainTransaction)
    → ((v : String) → contains (signatures_of txs) v ≡ true → P v)
    → All (λ tx. P tx.signature) txs
signatures_all P [] h = tt
signatures_all P (tx ∷ txs) h = (
  h tx.signature (rw (eq_refl tx.signature) refl),
  signatures_all P txs (λ v among. h v (ground (arith, among))),
)

all-IsSaved :
    (sigs : List Signature) (accts : List Account) (txs : List OnchainTransaction)
    → All (λ tx. contains (values sigs) tx.signature ≡ true) txs
    → All (λ tx. All (λ a. contains (addresses accts) a ≡ true) tx.accounts) txs
    → All IsClosed txs
    → All (IsSaved sigs accts) txs
all-IsSaved sigs accts [] hs ha hc = tt
all-IsSaved sigs accts (tx ∷ txs) hs ha hc = (
  record { signature = hs.0; addresses = ha.0; closed = hc.0 },
  all-IsSaved sigs accts txs hs.1 ha.1 hc.1,
)

abbrev pub described_rows :
    List Signature → List Account → List OnchainTransaction → InsertableComponents
described_rows sigs accts txs = record {
  txs = map (transaction_row sigs accts) txs;
  ixs = flat_map (λ tx. instruction_rows accts (sid_of sigs accts tx) 0 tx.ixs) txs;
  inner_ixs = flat_map (λ tx. all_inner_rows accts (sid_of sigs accts tx) 0 tx.ixs) txs;
}

-- The statements of a save, with the rows described and no assertion about ids.
abbrev pub save_described :
    (db : Store) → (List String → List String) → Update → db.State → Outcome (Update × db.State)
save_described db iterate u st = do
  st₀ ← must (db.begin st)
  (sigs, st₁) ← save_signatures db [] (signatures_of u.transactions) st₀
  (accts, st₂) ← save_accounts db iterate [] (insertable_addresses [] u.transactions) st₁
  st₃ ← insert_components db (described_rows sigs accts u.transactions) st₂
  ok (record u { signatures_ids = u.signatures_ids ++ map (λ s. s.id) sigs }, st₃)

module _ (db : Store) (law : IsLawful db) (iterate : List String → List String)
    (visits_all : (keys : List String) (v : String)
      → contains keys v ≡ true
      → contains (iterate keys) v ≡ true) where
  prepared :
      (txs : List OnchainTransaction) (st st₁ st₂ : db.State) (sigs : List Signature)
      (accts : List Account)
      → All IsClosed txs
      → save_signatures db [] (signatures_of txs) st ≡ ok (sigs, st₁)
      → save_accounts db iterate [] (insertable_addresses [] txs) st₁ ≡ ok (accts, st₂)
      → prepare_insertable_components txs sigs accts ≡ ok (described_rows sigs accts txs)
  prepared txs st st₁ st₂ sigs accts closed saved_sigs saved_accts =
      prepare_insertable_components-rows sigs accts txs (
        all-IsSaved sigs accts txs
          (signatures_all (λ v. contains (values sigs) v ≡ true) txs
            (λ v among.
              let (id, e) =
                save_signatures-found db law [] (signatures_of txs) st st₁ sigs saved_sigs v
                  among in
              contains-signature_id sigs v id e))
          (accounts_all (λ a. contains (addresses accts) a ≡ true) [] txs
            (λ a among.
              let (id, e) =
                save_accounts-found db law iterate visits_all [] (insertable_addresses [] txs) st₁
                  st₂ accts saved_accts a among in
              contains-account_id accts a id e))
          closed)

  -- Saving closed transactions is this chain of statements: the signatures, the accounts, then the
  -- described rows. The assertions "invalid update" never fail: only a failing statement ends the
  -- process.
  pub save_transactions-described :
      (u : Update) (st : db.State)
      → All IsClosed u.transactions
      → save_transactions db iterate u st ≡ save_described db iterate u st
  unfolding save_transactions
  save_transactions-described u st closed = >>=-cong (must (db.begin st)) _ _ λ st₀ begun.
      >>=-cong (save_signatures db [] (signatures_of u.transactions) st₀) _ _ λ s saved_sigs.
        >>=-cong (save_accounts db iterate [] (insertable_addresses [] u.transactions) s.1) _ _
          λ a saved_accts.
            rw (prepared u.transactions st₀ s.1 a.1 s.0 a.0 closed saved_sigs saved_accts) refl
