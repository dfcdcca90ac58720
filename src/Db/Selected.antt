-- ===== src/Db/Selected.antt =====
-- `selectAccountsCoalesce` of pkg/wallet_sync/db.go: the accounts that the query of `transactions.Get`
-- gives for an instruction, as PostgreSQL evaluates the text.
use tax_bro.Prelude.{ℕ, suc, List, [], ◌∷◌, String, ◌==◌, if◌then◌else◌, map, select, contains}
use tax_bro.Prelude.Int.{ℤ, pos, eq_int}
use tax_bro.Db.{Account}
use tax_bro.Db.Order.{order_by}

-- A row of the table address.
pub record Address : Type 0 where
  pub id : ℤ
  pub value : String

-- `array_position(accounts_ids, id)`, with the number of the first item. An identifier that is not
-- there has no position, and stands behind all that have one.
abbrev pub array_position : ℕ → List ℤ → ℤ → ℕ
array_position n [] id = n
array_position n (x ∷ ids) id =
    let later = array_position (suc n) ids id in if x == id then n else later

-- `ORDER BY ord ASC` of the rows with `address.id = ANY(accounts_ids)`.
abbrev pub selected_rows : List Address → List ℤ → List Address
selected_rows addresses ids =
    order_by (λ row. array_position 1 ids row.id) (select (λ row. contains ids row.id) addresses)

-- A row of the result.
abbrev pub selected_account : List ℤ → Address → Account
selected_account ids row = record {
  id = row.id;
  address = row.value;
  ord = pos (array_position 1 ids row.id);
}

abbrev pub selected_accounts : List Address → List ℤ → List Account
selected_accounts addresses ids = map (selected_account ids) (selected_rows addresses ids)
