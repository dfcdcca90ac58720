-- ===== src/Db/Lawful.antt =====
-- What the statements of pkg/wallet_sync/db.go do in PostgreSQL, when they succeed.
use tax_bro.Prelude.{◌≡◌, true, List, map, String, contains, eq_string, value}
use tax_bro.Db.{Store, Signature, Account}

abbrev pub values : List Signature → List String
values = map (λ s. s.val)

abbrev pub addresses : List Account → List String
addresses = map (λ a. a.address)

-- `INSERT … RETURNING` returns a row for each value, and `SELECT … = ANY` only rows of the values
-- asked for.
pub record IsLawful (db : Store) : Type 0 where
  pub inserted_signatures :
      (vs : List String) (st st' : db.State) (rows : List Signature)
      → db.insert_signatures vs st ≡ value (rows, st')
      → (v : String) → contains vs v ≡ true
      → contains (values rows) v ≡ true
  pub inserted_addresses :
      (vs : List String) (st st' : db.State) (rows : List Account)
      → db.insert_addresses vs st ≡ value (rows, st')
      → (v : String) → contains vs v ≡ true
      → contains (addresses rows) v ≡ true
