-- ===== src/Update/Save/Counted.antt =====
-- `saveTransactions` of pkg/wallet_sync/wallet_sync.go: what it leaves alone, and how many ids it
-- adds to the update.
use tax_bro.Prelude.{
  ◌+◌, ◌≤◌, ◌≡◌, refl, List, [], ◌∷◌, ◌++◌, map, length, length-map, length-append, String, Outcome,
  ok, must, must-eq-ok, >>=-eq-ok, ok-injective, arith,
}
use tax_bro.Rpc.{OnchainTransaction}
use tax_bro.Db.{
  Store, Signature, Account, unsaved_addresses, insert_unsaved, save_signatures, save_accounts,
}
use tax_bro.Update.{Update}
use tax_bro.Update.Prepare.{InsertableComponents, prepare_insertable_components}
use tax_bro.Update.Save.{
  insertable_addresses, signatures_of, insert_rows, insert_components, save_transactions,
}
use tax_bro.Update.User.Counts.{
  Counts, SameCounts, IsCounting, IsSaving, IsBalanced, SameCounts-IsBalanced,
}

module _ (db : Store) (c : Counts db) (count : IsCounting db c) (law : IsSaving db c) where
  save_signatures-IsBalanced :
      (s : List Signature) (vs : List String) (st : db.State) {r : List Signature × db.State}
      → save_signatures db s vs st ≡ ok r
      → IsBalanced db c st
      → IsBalanced db c r.1 × (length r.0 ≤ length s + length vs)
  unfolding save_signatures
  save_signatures-IsBalanced s [] st e b = rw (← ok-injective e) (b, omega arith)
  save_signatures-IsBalanced s (v ∷ vs) st e b =
      let ((inserted, st'), done, e₁) = >>=-eq-ok (must (db.insert_signatures (v ∷ vs) st)) _ e in
      let (same, few) = law.signatures_saved (v ∷ vs) st st' inserted (must-eq-ok _ done) in
      rw (← ok-injective e₁)
        (SameCounts-IsBalanced db c same b, omega (arith, length-append s inserted))

  insert_unsaved-IsBalanced :
      (a : List Account) (vs : List String) (st : db.State) {r : List Account × db.State}
      → insert_unsaved db a vs st ≡ ok r
      → IsBalanced db c st
      → IsBalanced db c r.1
  unfolding insert_unsaved
  insert_unsaved-IsBalanced a [] st e b = rw (← ok-injective e) b
  insert_unsaved-IsBalanced a (v ∷ vs) st e b =
      let ((inserted, st'), done, e₁) = >>=-eq-ok (must (db.insert_addresses (v ∷ vs) st)) _ e in
      rw (← ok-injective e₁) (
        SameCounts-IsBalanced db c
          (law.addresses_saved (v ∷ vs) st st' inserted (must-eq-ok _ done)) b)

  save_accounts-IsBalanced :
      (iterate : List String → List String) (a : List Account) (vs : List String) (st : db.State)
      {r : List Account × db.State}
      → save_accounts db iterate a vs st ≡ ok r
      → IsBalanced db c st
      → IsBalanced db c r.1
  unfolding save_accounts
  save_accounts-IsBalanced iterate a [] st e b = rw (← ok-injective e) b
  save_accounts-IsBalanced iterate a (v ∷ vs) st e b =
      let (saved, found, e₁) = >>=-eq-ok (must (db.select_addresses (iterate (v ∷ vs)) st)) _ e in
      insert_unsaved-IsBalanced (a ++ saved) (unsaved_addresses saved (iterate (v ∷ vs))) st e₁ b

  insert_rows-IsBalanced {ℓ} :
      {R : Type ℓ} (insert : List R → db.State → Outcome db.State) (rows : List R)
      → ((st st' : db.State) → insert rows st ≡ ok st' → SameCounts c st st')
      → (st st' : db.State) → insert_rows db insert rows st ≡ ok st'
      → IsBalanced db c st
      → IsBalanced db c st'
  insert_rows-IsBalanced insert [] same st st' e b = rw (← ok-injective e) b
  insert_rows-IsBalanced insert (r ∷ rows) same st st' e b =
      SameCounts-IsBalanced db c (same st st' e) b

  insert_components-IsBalanced :
      (rows : InsertableComponents) (st st' : db.State)
      → insert_components db rows st ≡ ok st'
      → IsBalanced db c st
      → IsBalanced db c st'
  unfolding insert_components
  insert_components-IsBalanced rows st st' e b =
      let (st₁, done₁, e₁) =
        >>=-eq-ok (insert_rows db (λ r s. must (db.insert_transactions r s)) rows.txs st) _ e in
      let (st₂, done₂, e₂) =
        >>=-eq-ok (insert_rows db (λ r s. must (db.insert_instructions r s)) rows.ixs st₁) _ e₁ in
      let (st₃, done₃, e₃) =
        >>=-eq-ok
          (insert_rows db (λ r s. must (db.insert_inner_instructions r s)) rows.inner_ixs st₂) _
          e₂ in
      SameCounts-IsBalanced db c (count.commit_same st₃ st' (must-eq-ok _ e₃)) (
        insert_rows-IsBalanced (λ r s. must (db.insert_inner_instructions r s)) rows.inner_ixs
          (λ s t h. law.inner_instructions_saved rows.inner_ixs s t (must-eq-ok _ h)) st₂ st₃ done₃
          (insert_rows-IsBalanced (λ r s. must (db.insert_instructions r s)) rows.ixs
            (λ s t h. law.instructions_saved rows.ixs s t (must-eq-ok _ h)) st₁ st₂ done₂
            (insert_rows-IsBalanced (λ r s. must (db.insert_transactions r s)) rows.txs
              (λ s t h. law.transactions_saved rows.txs s t (must-eq-ok _ h)) st st₁ done₁ b)))

  -- Saving leaves every wallet's counters at the numbers of its rows, and adds at most an id for
  -- each transaction.
  pub save_transactions-IsBalanced :
      (iterate : List String → List String) (u : Update) (st : db.State) {r : Update × db.State}
      → save_transactions db iterate u st ≡ ok r
      → IsBalanced db c st
      → IsBalanced db c r.1
        × (length r.0.signatures_ids ≤ length u.signatures_ids + length u.transactions)
        × (r.0.associated_accounts ≡ u.associated_accounts)
  unfolding save_transactions
  save_transactions-IsBalanced iterate u st e b =
      let (st₀, begun, e₁) = >>=-eq-ok (must (db.begin st)) _ e in
      let b₀ = SameCounts-IsBalanced db c (count.begin_same st st₀ (must-eq-ok _ begun)) b in
      let ((sigs, st₁), saved, e₂) =
        >>=-eq-ok (save_signatures db [] (signatures_of u.transactions) st₀) _ e₁ in
      let (b₁, few) = save_signatures-IsBalanced [] (signatures_of u.transactions) st₀ saved b₀ in
      let ((accts, st₂), accounts_saved, e₃) =
        >>=-eq-ok (save_accounts db iterate [] (insertable_addresses [] u.transactions) st₁) _ e₂ in
      let b₂ = save_accounts-IsBalanced iterate [] _ st₁ accounts_saved b₁ in
      let (rows, prepared, e₄) =
        >>=-eq-ok (prepare_insertable_components u.transactions sigs accts) _ e₃ in
      let (st₃, inserted, e₅) = >>=-eq-ok (insert_components db rows st₂) _ e₄ in
      rw (← ok-injective e₅) (
        insert_components-IsBalanced rows st₂ st₃ inserted b₂,
        omega (
          arith,
          few,
          length-append u.signatures_ids (map (λ (s : Signature). s.id) sigs),
          length-map (λ (s : Signature). s.id) sigs,
          length-map (λ (tx : OnchainTransaction). tx.signature) u.transactions,
        ),
        refl,
      )
