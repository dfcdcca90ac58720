-- ===== src/SetupSolana/Loaded.antt =====
-- `SetupSolana` of pkg/test_utils/solana.go behind a run of cmd/init_solana/main.go.
use tax_bro.Prelude.{
  ℕ, ◌<◌, ◌≡◌, refl, sym, ap, ◌∙◌, true, false, List, [], ◌∷◌, ◌++◌, append_assoc, append-nil, map,
  flat_map, All, ok, >>=-eq-ok, ok-injective, assert, ltb, length, must, Fallible, value, arith,
}
use tax_bro.Text.{bytes_eq_self, Bytes, codes, has_suffix}
use tax_bro.InitSolana.{
  Wallet, Files, no_cache, to_int, rounds_of, load_cache, create_all, init_solana,
}
use tax_bro.InitSolana.Keys.{IsDisk, json_list}
use tax_bro.InitSolana.Created.{key_path, data_path, IsApart, create_all-keys}
use tax_bro.SetupSolana.{Entry, is_key_file, visit_entry, walk_entries, setup_solana}

-- What can stand in the folder of a run: the folder itself, the cache, and the two files of an account.
pub data Item : Type 0 where
  folder cache : Item
  key_of data_of : ℕ → Item

has_suffix_self : (s suffix : Bytes) → has_suffix (s ++ suffix) suffix ≡ true
has_suffix_self [] [] = refl
has_suffix_self [] (c ∷ suffix) = ground (arith, bytes_eq_self (c ∷ suffix))
has_suffix_self (c ∷ s) suffix = ground (arith, has_suffix_self s suffix)

key_file : (s : Bytes) → is_key_file (codes "pk_" ++ s ++ codes ".json") ≡ true
key_file s = has_suffix_self (codes "pk_" ++ s) (codes ".json")

module _ (files : Files) (dir : Bytes) (new_wallet : ℕ → Wallet) where
  abbrev pub entry_of : Item → Entry
  entry_of folder = record { path = dir; name = dir; is_dir = true; has_error = false }
  entry_of cache = record {
    path = files.join dir (codes "cache.json");
    name = codes "cache.json";
    is_dir = false;
    has_error = false;
  }
  entry_of (key_of j) = record {
    path = key_path files dir (new_wallet j);
    name = codes "pk_" ++ (new_wallet j).public_key ++ codes ".json";
    is_dir = false;
    has_error = false;
  }
  entry_of (data_of j) = record {
    path = data_path files dir (new_wallet j);
    name = codes "data_" ++ (new_wallet j).public_key ++ codes ".json";
    is_dir = false;
    has_error = false;
  }

  abbrev pub keys_of : Item → List (List ℕ)
  keys_of (key_of j) = (new_wallet j).private_key ∷ []
  keys_of _ = []

  abbrev pub IsBelow : ℕ → Item → Type 0
  IsBelow n folder = Unit
  IsBelow n cache = Unit
  IsBelow n (key_of j) = j < n
  IsBelow n (data_of j) = j < n

  walk_entries-items :
      (read_key : Bytes → Fallible (List ℕ)) (n : ℕ)
      → ((j : ℕ)
          → j < n
          → read_key (key_path files dir (new_wallet j)) ≡ value (new_wallet j).private_key)
      → (items : List Item) (wallets : List (List ℕ)) → All (IsBelow n) items
      → walk_entries read_key (map entry_of items) wallets
        ≡ value (wallets ++ flat_map keys_of items)
  unfolding walk_entries visit_entry
  walk_entries-items read_key n reads [] wallets below = ap value (sym (append-nil wallets))
  walk_entries-items read_key n reads (folder ∷ items) wallets below =
      walk_entries-items read_key n reads items wallets below.1
  walk_entries-items read_key n reads (cache ∷ items) wallets below =
      walk_entries-items read_key n reads items wallets below.1
  walk_entries-items read_key n reads (data_of j ∷ items) wallets below =
      walk_entries-items read_key n reads items wallets below.1
  walk_entries-items read_key n reads (key_of j ∷ items) wallets below =
      let key = (new_wallet j).private_key in
      rw (key_file (new_wallet j).public_key, reads j below.0)
        (walk_entries-items read_key n reads items (wallets ++ key ∷ []) below.1
          ∙ ap value (append_assoc wallets (key ∷ []) (flat_map keys_of items)))

  -- A key file of an account is read as the JSON list that it holds.
  abbrev pub Decodes : (files.State → Bytes → Fallible (List ℕ)) → ℕ → Type 0
  Decodes read_key n =
      (st : files.State) (j : ℕ)
      → j < n
      → files.read_file (key_path files dir (new_wallet j)) st
        ≡ value (json_list (new_wallet j).private_key)
      → read_key st (key_path files dir (new_wallet j)) ≡ value (new_wallet j).private_key

  module _ (law : IsDisk files) (read_key : files.State → Bytes → Fallible (List ℕ)) where
    create_all-setup :
        (num_accounts : ℕ) (st : files.State) {r : Bytes × files.State}
        → IsApart files dir new_wallet (rounds_of (to_int num_accounts))
        → Decodes read_key (rounds_of (to_int num_accounts))
        → create_all files new_wallet num_accounts dir (files.join dir (codes "cache.json")) st
          ≡ ok r
        → (items : List Item) → All (IsBelow (rounds_of (to_int num_accounts))) items
        → setup_solana (read_key r.1) (map entry_of items) ≡ ok (flat_map keys_of items)
    unfolding setup_solana
    create_all-setup num_accounts st {r} apart decodes e items below =
        let n = rounds_of (to_int num_accounts) in
        ap must (
          walk_entries-items (read_key r.1) n
            (λ j high.
              decodes r.1 j high
                (create_all-keys files law dir new_wallet n apart num_accounts st refl e j high))
            items [] below)

-- If `init_solana` ends in a folder that was not there before, `SetupSolana` finds the key of each
-- account that it visits, in the order of its walk, and nothing else in the folder: the cache and
-- the accounts' data are no keys. The paths of the accounts are different ones, the disk keeps what
-- is written, and a key is read from the JSON list of its bytes.
pub setup_solana-init_solana :
    (files : Files) (law : IsDisk files) (new_wallet : ℕ → Wallet)
    (read_key : files.State → Bytes → Fallible (List ℕ)) (num_accounts : ℕ)
    (project_dir solana_dir_name : Bytes) (st : files.State) {r : Bytes × files.State}
    → IsApart files
        (files.join project_dir solana_dir_name)
        new_wallet
        (rounds_of (to_int num_accounts))
    → Decodes files
        (files.join project_dir solana_dir_name)
        new_wallet
        read_key
        (rounds_of (to_int num_accounts))
    → files.is_dir (files.join project_dir solana_dir_name) st ≡ false
    → init_solana files new_wallet num_accounts project_dir solana_dir_name st ≡ ok r
    → (items : List Item)
    → All
        (IsBelow files
          (files.join project_dir solana_dir_name)
          new_wallet
          (rounds_of (to_int num_accounts)))
        items
    → setup_solana
        (read_key r.1)
        (map (entry_of files (files.join project_dir solana_dir_name) new_wallet) items)
      ≡ ok (flat_map (keys_of files (files.join project_dir solana_dir_name) new_wallet) items)
unfolding init_solana
setup_solana-init_solana files law new_wallet read_key num_accounts project_dir solana_dir_name st
      apart decodes fresh e items below =
    let dir = files.join project_dir solana_dir_name in
    let path = files.join dir (codes "cache.json") in
    let (_, some_accounts, e₁) = >>=-eq-ok (assert (ltb 0 num_accounts)) _ e in
    let (_, has_dir, e₂) = >>=-eq-ok (assert (ltb 0 (length project_dir))) _ e₁ in
    let (loaded, l, e₃) = >>=-eq-ok (load_cache files dir path st) _ e₂ in
    let none : no_cache ≡ loaded = ok-injective (rw fresh at l) in
    create_all-setup files dir new_wallet law read_key num_accounts st apart decodes
      (rw (← none) at e₃) items below
