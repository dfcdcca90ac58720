-- ===== src/SetupSolana.antt =====
-- `SetupSolana` of pkg/test_utils/solana.go: the wallets whose key files are below a folder. The
-- entries are those that filepath.Walk visits, in its order.
pub mod Loaded
use tax_bro.Prelude.{
  ℕ, Bool, true, false, ◌&&◌, List, [], ◌∷◌, ◌++◌, if◌then◌else◌, Outcome, must, Fallible, value,
  error,
}
use tax_bro.Text.{Bytes, codes, has_prefix, has_suffix}

-- What the walk gives to its function. `has_error`: with an error instead of the file.
pub record Entry : Type 0 where
  pub path : Bytes
  pub name : Bytes
  pub is_dir : Bool
  pub has_error : Bool

abbrev pub is_key_file : Bytes → Bool
is_key_file name = has_prefix name (codes "pk_") && has_suffix name (codes ".json")

-- `read_key` is `solana.PrivateKeyFromSolanaKeygenFile`.
module _ (read_key : Bytes → Fallible (List ℕ)) where
  abbrev pub loaded : List (List ℕ) → Fallible (List ℕ) → Fallible (List (List ℕ))
  loaded wallets error = error
  loaded wallets (value pk) = value (wallets ++ pk ∷ [])

  -- The function of the walk, with the wallets so far.
  unfoldable pub visit_entry : Entry → List (List ℕ) → Fallible (List (List ℕ))
  visit_entry entry wallets =
      if entry.has_error
      then error
      else if entry.is_dir
      then value wallets
      else if is_key_file entry.name
      then loaded wallets (read_key entry.path)
      else value wallets

  -- The walk, which an error of the function ends.
  unfoldable pub walk_entries : List Entry → List (List ℕ) → Fallible (List (List ℕ))
  walk_entries [] wallets = value wallets
  walk_entries (entry ∷ entries) wallets = elim (visit_entry entry wallets) [
    | error ↦ error
    | value more ↦ walk_entries entries more
  ]

  unfoldable pub setup_solana : List Entry → Outcome (List (List ℕ))
  unfolding walk_entries visit_entry
  setup_solana entries = must (walk_entries entries [])
