-- ===== src/Update/User/Counts.antt =====
-- What PostgreSQL promises of the tables that `updateUser` of pkg/wallet_sync/wallet_sync.go changes.
use tax_bro.Prelude.{ℕ, ◌+◌, ◌≤◌, ◌≡◌, List, String, ◌==◌, if◌then◌else◌, length, replicate, value}
use tax_bro.Prelude.Int.{ℤ, pos, eq_int}
use tax_bro.Db.{Store, Signature, Account, TransactionRow, InstructionRow, InnerInstructionRow}

-- What the tables hold of a wallet: the rows that link it to signatures and to accounts, and the
-- two counters in its own row.
pub record Counts (db : Store) : Type 0 where
  pub links : db.State → ℤ → ℕ
  pub counter : db.State → ℤ → ℕ
  pub account_links : db.State → ℤ → ℕ
  pub account_counter : db.State → ℤ → ℕ

-- The statements outside the two links and the two counters leave them alone.
pub record SameCounts {db : Store} (c : Counts db) (st st' : db.State) : Type 0 where
  pub links : (w : ℤ) → c.links st' w ≡ c.links st w
  pub counter : (w : ℤ) → c.counter st' w ≡ c.counter st w
  pub account_links : (w : ℤ) → c.account_links st' w ≡ c.account_links st w
  pub account_counter : (w : ℤ) → c.account_counter st' w ≡ c.account_counter st w

abbrev pub at_wallet : (ℤ → ℕ) → ℤ → ℕ → ℤ → ℕ
at_wallet f w n v = if v == w then f v + n else f v

-- `INSERT … ON CONFLICT DO NOTHING` reports the rows that it inserted, which are those that the
-- wallet gains and at most as many as were given; an `UPDATE` adds what it is told to.
pub record IsCounting (db : Store) (c : Counts db) : Type 0 where
  pub begin_same : (st st' : db.State) → db.begin st ≡ value st' → SameCounts c st st'
  pub commit_same : (st st' : db.State) → db.commit st ≡ value st' → SameCounts c st st'
  pub last_same :
      (s : String) (w : ℤ) (st st' : db.State)
      → db.set_last_signature s w st ≡ value st'
      → SameCounts c st st'
  pub signatures_linked :
      (ids : List ℤ) (w : ℤ) (st st' : db.State) (n : ℕ)
      → db.link_signatures ids (replicate (length ids) w) st ≡ value (n, st')
      → (n ≤ length ids)
        × ((v : ℤ) → c.links st' v ≡ at_wallet (c.links st) w n v)
        × ((v : ℤ) → c.counter st' v ≡ c.counter st v)
        × ((v : ℤ) → c.account_links st' v ≡ c.account_links st v)
        × ((v : ℤ) → c.account_counter st' v ≡ c.account_counter st v)
  pub signatures_added :
      (n : ℕ) (w : ℤ) (st st' : db.State)
      → db.add_signatures (pos n) w st ≡ value st'
      → ((v : ℤ) → c.counter st' v ≡ at_wallet (c.counter st) w n v)
        × ((v : ℤ) → c.links st' v ≡ c.links st v)
        × ((v : ℤ) → c.account_links st' v ≡ c.account_links st v)
        × ((v : ℤ) → c.account_counter st' v ≡ c.account_counter st v)
  -- `address.value` is unique, so there is at most one row for each address.
  pub unlinked_few :
      (vs : List String) (st : db.State) → length (db.select_unlinked vs st) ≤ length vs
  pub accounts_linked :
      (ids : List ℤ) (w : ℤ) (st st' : db.State) (n : ℕ)
      → db.link_accounts ids (replicate (length ids) w) st ≡ value (n, st')
      → (n ≤ length ids)
        × ((v : ℤ) → c.account_links st' v ≡ at_wallet (c.account_links st) w n v)
        × ((v : ℤ) → c.links st' v ≡ c.links st v)
        × ((v : ℤ) → c.counter st' v ≡ c.counter st v)
        × ((v : ℤ) → c.account_counter st' v ≡ c.account_counter st v)
  pub accounts_added :
      (n : ℕ) (w : ℤ) (st st' : db.State)
      → db.add_accounts (pos n) w st ≡ value st'
      → ((v : ℤ) → c.account_counter st' v ≡ at_wallet (c.account_counter st) w n v)
        × ((v : ℤ) → c.links st' v ≡ c.links st v)
        × ((v : ℤ) → c.counter st' v ≡ c.counter st v)
        × ((v : ℤ) → c.account_links st' v ≡ c.account_links st v)

-- Each wallet's counters are the numbers of its rows.
abbrev pub IsBalanced : (db : Store) → Counts db → db.State → Type 0
IsBalanced db c st =
    (v : ℤ) → (c.counter st v ≡ c.links st v) × (c.account_counter st v ≡ c.account_links st v)

pub SameCounts-IsBalanced :
    (db : Store) (c : Counts db) {st st' : db.State}
    → SameCounts c st st'
    → IsBalanced db c st
    → IsBalanced db c st'
SameCounts-IsBalanced db c same b v =
    rw (same.links v, same.counter v, same.account_links v, same.account_counter v) (b v)

-- The statements of `saveTransactions` leave the links and the counters alone, and an insert returns
-- at most a row for each value.
pub record IsSaving (db : Store) (c : Counts db) : Type 0 where
  pub signatures_saved :
      (vs : List String) (st st' : db.State) (rows : List Signature)
      → db.insert_signatures vs st ≡ value (rows, st')
      → SameCounts c st st' × (length rows ≤ length vs)
  pub addresses_saved :
      (vs : List String) (st st' : db.State) (rows : List Account)
      → db.insert_addresses vs st ≡ value (rows, st')
      → SameCounts c st st'
  pub transactions_saved :
      (rows : List TransactionRow) (st st' : db.State)
      → db.insert_transactions rows st ≡ value st'
      → SameCounts c st st'
  pub instructions_saved :
      (rows : List InstructionRow) (st st' : db.State)
      → db.insert_instructions rows st ≡ value st'
      → SameCounts c st st'
  pub inner_instructions_saved :
      (rows : List InnerInstructionRow) (st st' : db.State)
      → db.insert_inner_instructions rows st ≡ value st'
      → SameCounts c st st'
