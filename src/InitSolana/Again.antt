-- ===== src/InitSolana/Again.antt =====
-- cmd/init_solana/main.go: a second run.
use tax_bro.Prelude.{
  ℕ, ◌≡◌, refl, true, Bool-cases, inl, inr, [], ◌++◌, ltb, length, ◌==◌, ok, assert, >>=-eq-ok,
  ok-injective, must, must-eq-ok, value,
}
use tax_bro.Prelude.Int.{eq_int, int_eq_iff}
use tax_bro.Text.{Bytes, codes}
use tax_bro.InitSolana.{
  Cache, Wallet, Files, Loaded, cached, no_cache, unreadable, to_int, rounds_of, save_cache,
  load_cache, create_accounts, create_all, with_cache, init_solana,
}

-- What the operating system and encoding/json promise: a file can only be created in a directory
-- and is empty then, a print that reports no error adds its text, and a cache is read as it was
-- written.
pub record IsFileSystem (files : Files) : Type 0 where
  pub created :
      (dir : Bytes) (st st' : files.State)
      → files.create (files.join dir (codes "cache.json")) st ≡ value st'
      → (files.is_dir dir st' ≡ true)
        × (files.read_file (files.join dir (codes "cache.json")) st' ≡ value [])
  pub printed :
      (path text old : Bytes) (st : files.State)
      → (files.print path text st).0 ≡ true
      → files.read_file path st ≡ value old
      → (files.read_file path (files.print path text st).1 ≡ value (old ++ text))
        × ((dir : Bytes) → files.is_dir dir (files.print path text st).1 ≡ files.is_dir dir st)
  pub decoded :
      (c : Cache) (json : Bytes) → files.marshal c ≡ value json → files.unmarshal json ≡ value c

module _ (files : Files) (law : IsFileSystem files)
    (has_room : (path text : Bytes) (st : files.State) → (files.print path text st).0 ≡ true)
    (dir : Bytes) where
  -- A cache that was saved into a new file is loaded.
  load_cache-save_cache :
      (c : Cache) (st st₁ st₂ : files.State)
      → files.create (files.join dir (codes "cache.json")) st ≡ value st₁
      → save_cache files (files.join dir (codes "cache.json")) c st₁ ≡ ok st₂
      → load_cache files dir (files.join dir (codes "cache.json")) st₂ ≡ ok (cached c)
  load_cache-save_cache c st st₁ st₂ made saved =
      let path = files.join dir (codes "cache.json") in
      let (json, written, e) = >>=-eq-ok (must (files.marshal c)) _ saved in
      let (is_dir, empty) = law.created dir st st₁ made in
      let (content, dirs) = law.printed path json [] st₁ (has_room path json st₁) empty in
      let read_back = law.decoded c json (must-eq-ok _ written) in
      rw (← ok-injective e, dirs dir, is_dir, content, read_back) refl

  load_cache-create_all :
      (new_wallet : ℕ → Wallet) (num_accounts : ℕ) (st : files.State) {r : Bytes × files.State}
      → create_all files new_wallet num_accounts dir (files.join dir (codes "cache.json")) st ≡ ok r
      → load_cache files dir (files.join dir (codes "cache.json")) r.1
        ≡ ok (cached (record { args = r.0; accounts = to_int num_accounts }))
  load_cache-create_all new_wallet num_accounts st e =
      let path = files.join dir (codes "cache.json") in
      let ((args, st₁), made, e₁) =
        >>=-eq-ok
          (create_accounts files new_wallet dir (rounds_of (to_int num_accounts)) 0 []
            (files.mkdir dir st))
          _ e in
      let (st₂, created, e₂) = >>=-eq-ok (must (files.create path st₁)) _ e₁ in
      let c : Cache = record { args = args; accounts = to_int num_accounts } in
      let (st₃, saved, e₃) = >>=-eq-ok (save_cache files path c st₂) _ e₂ in
      rw (← ok-injective e₃) (load_cache-save_cache c st₁ st₂ st₃ (must-eq-ok _ created) saved)

  -- After a run, the cache holds what it printed, for its number of accounts.
  load_cache-with_cache :
      (new_wallet : ℕ → Wallet) (num_accounts : ℕ) (st : files.State) (loaded : Loaded)
      {r : Bytes × files.State}
      → load_cache files dir (files.join dir (codes "cache.json")) st ≡ ok loaded
      → with_cache files new_wallet num_accounts dir (files.join dir (codes "cache.json")) st loaded
        ≡ ok r
      → load_cache files dir (files.join dir (codes "cache.json")) r.1
        ≡ ok (cached (record { args = r.0; accounts = to_int num_accounts }))
  load_cache-with_cache new_wallet num_accounts st unreadable l e = cc
  load_cache-with_cache new_wallet num_accounts st no_cache l e =
      load_cache-create_all new_wallet num_accounts st e
  load_cache-with_cache new_wallet num_accounts st (cached c) l e =
      elim (Bool-cases (c.accounts == to_int num_accounts)) [
        | inl hit ↦
            let same : c.accounts ≡ to_int num_accounts =
              (int_eq_iff c.accounts (to_int num_accounts)).0 hit in
            rw (← ok-injective (rw hit at e), ← same) l
        | inr miss ↦
            load_cache-create_all new_wallet num_accounts (files.remove_all dir st) (rw miss at e)
      ]

module _ (files : Files) (law : IsFileSystem files) where
  -- If a run ends without a fault and the disk is never full, then a second run with the same flags
  -- prints what the first one did, and changes no file, whatever wallets it would make.
  pub init_solana_again :
      (has_room : (path text : Bytes) (st : files.State) → (files.print path text st).0 ≡ true)
      (new_wallet new_wallet' : ℕ → Wallet) (num_accounts : ℕ) (project_dir solana_dir_name : Bytes)
      (st : files.State) {r : Bytes × files.State}
      → init_solana files new_wallet num_accounts project_dir solana_dir_name st ≡ ok r
      → init_solana files new_wallet' num_accounts project_dir solana_dir_name r.1 ≡ ok r
  unfolding init_solana
  init_solana_again has_room new_wallet new_wallet' num_accounts project_dir solana_dir_name st e =
      let dir = files.join project_dir solana_dir_name in
      let path = files.join dir (codes "cache.json") in
      let (u, some_accounts, e₁) = >>=-eq-ok (assert (ltb 0 num_accounts)) _ e in
      let (v, has_dir, e₂) = >>=-eq-ok (assert (ltb 0 (length project_dir))) _ e₁ in
      let (loaded, l, e₃) = >>=-eq-ok (load_cache files dir path st) _ e₂ in
      let again =
        load_cache-with_cache files law has_room dir new_wallet num_accounts st loaded l e₃ in
      rw
        (
          some_accounts,
          has_dir,
          again,
          (int_eq_iff (to_int num_accounts) (to_int num_accounts)).1 refl,
        )
        refl
