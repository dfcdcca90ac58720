-- ===== src/Update/Prepare/Selected.antt =====
-- The accounts that `prepareForInsert` of pkg/wallet_sync/rpc.go stores, as the query of
-- pkg/wallet_sync/db.go reads them again.
use tax_bro.Prelude.{
  ℕ, suc, ◌≤◌, ◌<◌, ◌≡◌, refl, ap, ◌∙◌, false, List, [], ◌∷◌, All, String, ◌==◌, eq_string, map,
  select, contains, value, arith, value-injective, Fallible-cases, inl, inr,
}
use tax_bro.Prelude.Int.{ℤ, eq_int, int_eq_iff}
use tax_bro.Rpc.{OnchainInstructionBase}
use tax_bro.Db.{Account, account_id}
use tax_bro.Db.Order.{Reordered, IsOrdered, order_by_lem}
use tax_bro.Db.Selected.{
  Address, array_position, selected_rows, selected_account, selected_accounts,
}
use tax_bro.Update.Prepare.{accounts_ids, PreparedInstruction, prepare_for_insert}

-- The rows of the identifiers, with their addresses.
abbrev pub rows_of : List ℤ → List String → List Address
rows_of (id ∷ ids) (a ∷ accounts) = record { id = id; value = a } ∷ rows_of ids accounts
rows_of _ _ = []

-- No identifier comes twice.
abbrev pub IsOnce : List ℤ → Type 0
IsOnce [] = Unit
IsOnce (id ∷ ids) = All (λ x. (id == x) ≡ false) ids × IsOnce ids

values_of_rows :
    (inserted : List Account) (accounts : List String) (ids : List ℤ)
    → accounts_ids inserted accounts ≡ value ids
    → map (λ (row : Address). row.value) (rows_of ids accounts) ≡ accounts
unfolding accounts_ids
values_of_rows inserted [] ids h = rw (← value-injective h) refl
values_of_rows inserted (a ∷ accounts) ids h = elim (Fallible-cases (account_id inserted a)) [
  | inl (id, found) ↦ elim (Fallible-cases (accounts_ids inserted accounts)) [
    | inl (others, rest) ↦
        let same : value (id ∷ others) ≡ value ids = ground (arith, found, rest, h) in
        rw (← value-injective same) (ap (◌∷◌ a) (values_of_rows inserted accounts others rest))
    | inr missing ↦ absurd (ground (arith, h, found, missing))
  ]
  | inr missing ↦ absurd (ground (arith, h, missing))
]

others_apart :
    (x : ℤ) (ids : List ℤ) (accounts : List String)
    → All (λ y. (x == y) ≡ false) ids
    → All (λ row. (x == row.id) ≡ false) (rows_of ids accounts)
others_apart x [] accounts h = tt
others_apart x (id ∷ ids) [] h = tt
others_apart x (id ∷ ids) (a ∷ accounts) h = (h.0, others_apart x ids accounts h.1)

array_position-lower : (n : ℕ) (ids : List ℤ) (id : ℤ) → n ≤ array_position n ids id
array_position-lower n [] id = omega arith
array_position-lower n (x ∷ ids) id = ground (arith, array_position-lower (suc n) ids id)

behind_first :
    (n : ℕ) (x : ℤ) (ids : List ℤ) (rows : List Address)
    → All (λ row. (x == row.id) ≡ false) rows
    → All (λ row. n < array_position n (x ∷ ids) row.id) rows
behind_first n x ids [] h = tt
behind_first n x ids (row ∷ rows) h =
    let other = h.0 in
    (rw other (array_position-lower (suc n) ids row.id), behind_first n x ids rows h.1)

all_later :
    (n : ℕ) (x : ℤ) (ids : List ℤ) (row : Address) (rows : List Address)
    → (x == row.id) ≡ false
    → All (λ b. (x == b.id) ≡ false) rows
    → All (λ b. array_position (suc n) ids row.id < array_position (suc n) ids b.id) rows
    → All (λ b. array_position n (x ∷ ids) row.id < array_position n (x ∷ ids) b.id) rows
all_later n x ids row [] other h lower = tt
all_later n x ids row (b ∷ rows) other h lower =
    (rw (other, h.0) lower.0, all_later n x ids row rows other h.1 lower.1)

IsOrdered-later :
    (n : ℕ) (x : ℤ) (ids : List ℤ) (rows : List Address)
    → All (λ row. (x == row.id) ≡ false) rows
    → IsOrdered (λ row. array_position (suc n) ids row.id) rows
    → IsOrdered (λ row. array_position n (x ∷ ids) row.id) rows
IsOrdered-later n x ids [] h o = tt
IsOrdered-later n x ids (row ∷ rows) h o =
    (all_later n x ids row rows h.0 h.1 o.0, IsOrdered-later n x ids rows h.1 o.1)

rows_of-IsOrdered :
    (n : ℕ) (ids : List ℤ) (accounts : List String)
    → IsOnce ids
    → IsOrdered (λ row. array_position n ids row.id) (rows_of ids accounts)
rows_of-IsOrdered n [] accounts h = tt
rows_of-IsOrdered n (id ∷ ids) [] h = tt
rows_of-IsOrdered n (id ∷ ids) (a ∷ accounts) h =
    let apart = others_apart id ids accounts h.0 in
    (
      rw ((int_eq_iff id id).1 refl) (behind_first n id ids (rows_of ids accounts) apart),
      IsOrdered-later n id ids (rows_of ids accounts) apart
          (rows_of-IsOrdered (suc n) ids accounts h.1),
    )

-- If the table has, in some order, the rows of the identifiers among all its rows, they are read with
-- their addresses in the order of the identifiers.
selected_accounts-rows_of :
    (addresses : List Address) (ids : List ℤ) (accounts : List String)
    → IsOnce ids
    → Reordered (rows_of ids accounts) (select (λ row. contains ids row.id) addresses)
    → selected_rows addresses ids ≡ rows_of ids accounts
selected_accounts-rows_of addresses ids accounts once same =
    order_by_lem (λ row. array_position 1 ids row.id) (rows_of ids accounts) _ same
      (rows_of-IsOrdered 1 ids accounts once)

addresses_of :
    (ids : List ℤ) (rows : List Address)
    → map (λ (a : Account). a.address) (map (selected_account ids) rows)
      ≡ map (λ (row : Address). row.value) rows
addresses_of ids [] = refl
addresses_of ids (row ∷ rows) = ap (◌∷◌ row.value) (addresses_of ids rows)

prepared-accounts_ids :
    (oix : OnchainInstructionBase) (inserted : List Account) {p : PreparedInstruction}
    → prepare_for_insert oix inserted ≡ value p
    → accounts_ids inserted oix.accounts ≡ value p.accounts_ids
unfolding prepare_for_insert
prepared-accounts_ids oix inserted h = ground arith

-- If an instruction of the chain uses no account twice, and the table of addresses has the rows of
-- its identifiers in any order among others, the query gives its accounts' addresses in their order.
pub selected_accounts-prepare_for_insert :
    (oix : OnchainInstructionBase) (inserted : List Account) {p : PreparedInstruction}
    (addresses : List Address)
    → prepare_for_insert oix inserted ≡ value p
    → IsOnce p.accounts_ids
    → Reordered
        (rows_of p.accounts_ids oix.accounts)
        (select (λ row. contains p.accounts_ids row.id) addresses)
    → map (λ (a : Account). a.address) (selected_accounts addresses p.accounts_ids) ≡ oix.accounts
selected_accounts-prepare_for_insert oix inserted {p} addresses h once same =
    addresses_of p.accounts_ids (selected_rows addresses p.accounts_ids)
    ∙ ap (map (λ (row : Address). row.value))
        (selected_accounts-rows_of addresses p.accounts_ids oix.accounts once same)
    ∙ values_of_rows inserted oix.accounts p.accounts_ids (prepared-accounts_ids oix inserted h)
