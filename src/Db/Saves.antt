-- ===== src/Db/Saves.antt =====
-- `getId` and the two `save` methods of pkg/wallet_sync/db.go: what was saved is found again.
use text.Mathlib.TextEquality.{eq_iff}
use tax_bro.Prelude.{
  ◌≡◌, refl, true, ◌||◌, ◌&&◌, not, List, [], ◌∷◌, ◌++◌, String, contains, eq_string, ◌==◌, value,
  ok, must, >>=-eq-ok, ok-injective, must-eq-ok, ap, arith, Bool-cases, inl, inr,
}
use tax_bro.Prelude.Int.{ℤ}
use tax_bro.Db.{
  Store, Signature, Account, signature_id, account_id, is_unsaved, unsaved_addresses,
  insert_unsaved, save_signatures, save_accounts,
}
use tax_bro.Db.Lawful.{values, addresses, IsLawful}

-- An id is found for every value among the rows.
pub signature_id-found :
    (ss : List Signature) (v : String)
    → contains (values ss) v ≡ true
    → (id : ℤ) × (signature_id ss v ≡ value id)
unfolding signature_id
signature_id-found [] v h = cc
signature_id-found (s ∷ ss) v h = elim (Bool-cases (s.val == v)) [
  | inl same ↦ (s.id, rw same)
  | inr other ↦ rw other (signature_id-found ss v (ground arith))
]

pub account_id-found :
    (accounts : List Account) (v : String)
    → contains (addresses accounts) v ≡ true
    → (id : ℤ) × (account_id accounts v ≡ value id)
unfolding account_id
account_id-found [] v h = cc
account_id-found (a ∷ accounts) v h = elim (Bool-cases (a.address == v)) [
  | inl same ↦ (a.id, rw same)
  | inr other ↦ rw other (account_id-found accounts v (ground arith))
]

contains-values-append :
    (rows more : List Signature) (v : String)
    → contains (values more) v ≡ true
    → contains (values (rows ++ more)) v ≡ true
contains-values-append [] more v h = h
contains-values-append (r ∷ rows) more v h = ground (arith, contains-values-append rows more v h)

addresses-append_right :
    (rows more : List Account) (v : String)
    → contains (addresses more) v ≡ true
    → contains (addresses (rows ++ more)) v ≡ true
addresses-append_right [] more v h = h
addresses-append_right (r ∷ rows) more v h = ground (arith, addresses-append_right rows more v h)

addresses-append_left :
    (rows more : List Account) (v : String)
    → contains (addresses rows) v ≡ true
    → contains (addresses (rows ++ more)) v ≡ true
addresses-append_left [] more v h = cc
addresses-append_left (r ∷ rows) more v h = ground (arith, addresses-append_left rows more v)

is_unsaved_lem :
    (saved : List Account) (v : String) → is_unsaved saved v ≡ not (contains (addresses saved) v)
unfolding is_unsaved
is_unsaved_lem [] v = refl
is_unsaved_lem (sa ∷ saved) v = ground (arith, is_unsaved_lem saved v)

-- The addresses that are inserted are exactly those asked for that the select did not return.
contains-unsaved_addresses :
    (saved : List Account) (vs : List String) (v : String)
    → contains (unsaved_addresses saved vs) v
      ≡ (contains vs v && not (contains (addresses saved) v))
unfolding unsaved_addresses
contains-unsaved_addresses saved [] v = refl
contains-unsaved_addresses saved (a ∷ vs) v = ground (
  arith,
  is_unsaved_lem saved a,
  is_unsaved_lem saved v,
  eq_iff a v,
  contains-unsaved_addresses saved vs v,
)

module _ (db : Store) (law : IsLawful db) where
  -- After the signatures are saved, an id is found for each of them.
  pub save_signatures-found :
      (s : List Signature) (vs : List String) (st st' : db.State) (s' : List Signature)
      → save_signatures db s vs st ≡ ok (s', st')
      → (v : String) → contains vs v ≡ true
      → (id : ℤ) × (signature_id s' v ≡ value id)
  unfolding save_signatures
  save_signatures-found s [] st st' s' h v among = cc
  save_signatures-found s (x ∷ vs) st st' s' h v among =
      let ((inserted, st₁), done, whole) =
        >>=-eq-ok (must (db.insert_signatures (x ∷ vs) st)) _ h in
      let same : s ++ inserted ≡ s' = ap (λ r. r.0) (ok-injective whole) in
      let returned = must-eq-ok (db.insert_signatures (x ∷ vs) st) done in
      rw (← same) (
        signature_id-found (s ++ inserted) v (
          contains-values-append s inserted v
            (law.inserted_signatures (x ∷ vs) st st₁ inserted returned v among)))

  insert_unsaved-contains :
      (a : List Account) (vs : List String) (st st' : db.State) (a' : List Account)
      → insert_unsaved db a vs st ≡ ok (a', st')
      → (v : String) → (contains (addresses a) v || contains vs v) ≡ true
      → contains (addresses a') v ≡ true
  unfolding insert_unsaved
  insert_unsaved-contains a [] st st' a' h v among =
      let same : a ≡ a' = ap (λ r. r.0) (ok-injective h) in rw (← same) (ground arith)
  insert_unsaved-contains a (x ∷ vs) st st' a' h v among =
      let ((inserted, st₁), done, whole) = >>=-eq-ok (must (db.insert_addresses (x ∷ vs) st)) _ h in
      let same : a ++ inserted ≡ a' = ap (λ r. r.0) (ok-injective whole) in
      let returned = must-eq-ok (db.insert_addresses (x ∷ vs) st) done in
      rw (← same) (elim (Bool-cases (contains (addresses a) v)) [
        | inl old ↦ addresses-append_left a inserted v old
        | inr new ↦
            addresses-append_right a inserted v
              (law.inserted_addresses (x ∷ vs) st st₁ inserted returned v (ground arith))
      ])

  module _ (iterate : List String → List String)
      (visits_all : (keys : List String) (v : String)
        → contains keys v ≡ true
        → contains (iterate keys) v ≡ true) where
    -- After the accounts are saved, whichever order the map is ranged over, an id is found for each
    -- of their addresses, whether it was stored before or not.
    pub save_accounts-found :
        (a : List Account) (vs : List String) (st st' : db.State) (a' : List Account)
        → save_accounts db iterate a vs st ≡ ok (a', st')
        → (v : String) → contains vs v ≡ true
        → (id : ℤ) × (account_id a' v ≡ value id)
    unfolding save_accounts
    save_accounts-found a [] st st' a' h v among = cc
    save_accounts-found a (x ∷ vs) st st' a' h v among =
        let keys = iterate (x ∷ vs) in
        let (saved, done, then_insert) = >>=-eq-ok (must (db.select_addresses keys st)) _ h in
        let asked = visits_all (x ∷ vs) v among in
        account_id-found a' v (
          insert_unsaved-contains (a ++ saved) (unsaved_addresses saved keys) st st' a' then_insert
            v
            (elim (Bool-cases (contains (addresses saved) v)) [
              | inl old ↦ rw (addresses-append_right a saved v old) refl
              | inr new ↦ ground (arith, contains-unsaved_addresses saved keys v)
            ]))

-- An id is found only for a value among the rows.
pub contains-signature_id :
    (ss : List Signature) (v : String) (id : ℤ)
    → signature_id ss v ≡ value id
    → contains (values ss) v ≡ true
unfolding signature_id
contains-signature_id [] v id h = cc
contains-signature_id (s ∷ ss) v id h = ground (arith, contains-signature_id ss v id)

pub contains-account_id :
    (accounts : List Account) (v : String) (id : ℤ)
    → account_id accounts v ≡ value id
    → contains (addresses accounts) v ≡ true
unfolding account_id
contains-account_id [] v id h = cc
contains-account_id (a ∷ accounts) v id h = ground (arith, contains-account_id accounts v id)
