-- ===== src/InitSolana/Created.antt =====
-- The accounts that cmd/init_solana/main.go makes, one after the other.
use tax_bro.Prelude.{
  ℕ, zero, suc, ◌+◌, ◌≤◌, ◌<◌, ◌≡◌, ◌≢◌, refl, subst, ◌∙◌, [], ◌++◌, length, ok, >>=-eq-ok,
  ok-injective, must, must-eq-ok, value, arith,
}
use native.Mathlib.Decide.{dec_lt}
use tax_bro.Text.{Bytes, codes}
use tax_bro.InitSolana.{
  Cache, Wallet, Files, must_print, print_bytes, save_private_key, save_data, save_cache,
  create_accounts, create_all, rounds_of, to_int,
}
use tax_bro.InitSolana.Keys.{
  IsDisk, json_list, from_index-joined, then-Adds, must_print-Adds, print_bytes-Adds,
}

abbrev pub key_path : Files → Bytes → Wallet → Bytes
key_path files dir wallet = files.join dir (codes "./pk_" ++ wallet.public_key ++ codes ".json")

abbrev pub data_path : Files → Bytes → Wallet → Bytes
data_path files dir wallet = files.join dir (codes "./data_" ++ wallet.public_key ++ codes ".json")

-- The paths of so many accounts are different ones: their public keys are.
pub record IsApart (files : Files) (dir : Bytes) (new_wallet : ℕ → Wallet) (n : ℕ) : Type 0 where
  pub keys :
      (j k : ℕ)
      → j < n
      → k < n
      → key_path files dir (new_wallet j) ≡ key_path files dir (new_wallet k)
      → j ≡ k
  pub data_apart :
      (j k : ℕ)
      → j < n
      → k < n
      → key_path files dir (new_wallet j) ≢ data_path files dir (new_wallet k)
  pub cache_apart :
      (j : ℕ) → j < n → key_path files dir (new_wallet j) ≢ files.join dir (codes "cache.json")

module _ (files : Files) (law : IsDisk files) (dir : Bytes) where
  save_private_key-read :
      (wallet : Wallet) (st st' : files.State)
      → save_private_key files dir wallet st ≡ ok st'
      → (files.read_file (key_path files dir wallet) st' ≡ value (json_list wallet.private_key))
        × ((q : Bytes)
            → q ≢ key_path files dir wallet
            → files.read_file q st' ≡ files.read_file q st)
  save_private_key-read wallet st st' e =
      let p = key_path files dir wallet in
      let key = wallet.private_key in
      let (st₁, made, e₁) = >>=-eq-ok (must (files.create p st)) _ e in
      let (st₂, opened, e₂) = >>=-eq-ok (must_print files p (codes "[") st₁) _ e₁ in
      let (st₃, listed, closed) = >>=-eq-ok (print_bytes files p (length key) 0 key st₂) _ e₂ in
      let (empty, kept) = law.created p st st₁ (must-eq-ok _ made) in
      let adds =
        then-Adds files law p _ _ st₁ st₂ st'
          (must_print-Adds files law p (codes "[") st₁ st₂ opened)
          (then-Adds files law p _ _ st₂ st₃ st'
            (print_bytes-Adds files law p (length key) 0 key st₂ st₃ (omega arith) listed)
            (must_print-Adds files law p (codes "]") st₃ st' closed)) in
      (rw (from_index-joined key) at (adds.own [] empty), λ q ne. adds.others q ne ∙ kept q ne)

  save_data-others :
      (wallet : Wallet) (st : files.State) {r : Bytes × files.State} (q : Bytes)
      → save_data files dir wallet.public_key st ≡ ok r
      → q ≢ data_path files dir wallet
      → files.read_file q r.1 ≡ files.read_file q st
  save_data-others wallet st q e ne =
      let p = data_path files dir wallet in
      let (st₁, made, e₁) = >>=-eq-ok (must (files.create p st)) _ e in
      let (st₂, printed, e₂) = >>=-eq-ok (must_print files p _ st₁) _ e₁ in
      rw (← ok-injective e₂) (
        (must_print-Adds files law p _ st₁ st₂ printed).others q ne
        ∙ (law.created p st st₁ (must-eq-ok _ made)).1 q ne)

  module _ (new_wallet : ℕ → Wallet) where
    create_accounts-others :
        (q : Bytes) (rounds i : ℕ) (args : Bytes) (st : files.State) {r : Bytes × files.State}
        → create_accounts files new_wallet dir rounds i args st ≡ ok r
        → ((k : ℕ)
            → i ≤ k
            → k < i + rounds
            → (q ≢ key_path files dir (new_wallet k)) × (q ≢ data_path files dir (new_wallet k)))
        → files.read_file q r.1 ≡ files.read_file q st
    create_accounts-others q zero i args st e apart = rw (← ok-injective e) refl
    create_accounts-others q (suc rounds) i args st e apart =
        let (st₁, saved, e₁) = >>=-eq-ok (save_private_key files dir (new_wallet i) st) _ e in
        let ((path, st₂), described, e₂) =
          >>=-eq-ok (save_data files dir (new_wallet i).public_key st₁) _ e₁ in
        let (not_key, not_data) = apart i (omega arith) (omega arith) in
        create_accounts-others q rounds (i + 1) _ st₂ e₂
          (λ k low high. apart k (omega arith) (omega arith))
        ∙ save_data-others (new_wallet i) st₁ q described not_data
        ∙ (save_private_key-read (new_wallet i) st st₁ saved).1 q not_key

    module _ (n : ℕ) (apart : IsApart files dir new_wallet n) where
      create_accounts-keys :
          (rounds i : ℕ) (args : Bytes) (st : files.State) {r : Bytes × files.State}
          → i + rounds ≡ n
          → create_accounts files new_wallet dir rounds i args st ≡ ok r
          → (j : ℕ) → i ≤ j
          → j < n
          → files.read_file (key_path files dir (new_wallet j)) r.1
            ≡ value (json_list (new_wallet j).private_key)
      create_accounts-keys zero i args st whole e j low high = absurd (omega arith)
      create_accounts-keys (suc rounds) i args st whole e j low high =
          let (st₁, saved, e₁) = >>=-eq-ok (save_private_key files dir (new_wallet i) st) _ e in
          let ((path, st₂), described, e₂) =
            >>=-eq-ok (save_data files dir (new_wallet i).public_key st₁) _ e₁ in
          let q = key_path files dir (new_wallet j) in
          elim (dec_lt i j) [
            | yes later ↦
                create_accounts-keys rounds (i + 1) _ st₂ (omega arith) e₂ j (omega arith) high
            | no same ↦
                let here : i ≡ j = omega arith in
                create_accounts-others q rounds (i + 1) _ st₂ e₂ (λ k above below. (
                  (λ same_path.
                      absurd
                        (let twice = apart.keys j k high (omega arith) same_path in omega arith)),
                  apart.data_apart j k high (omega arith),
                ))
                ∙ save_data-others (new_wallet i) st₁ q described
                    (apart.data_apart j i high (omega arith))
                ∙ subst
                    (λ x.
                      files.read_file (key_path files dir (new_wallet x)) st₁
                      ≡ value (json_list (new_wallet x).private_key))
                    here (save_private_key-read (new_wallet i) st st₁ saved).0
          ]

      pub create_all-keys :
          (num_accounts : ℕ) (st : files.State) {r : Bytes × files.State}
          → rounds_of (to_int num_accounts) ≡ n
          → create_all files new_wallet num_accounts dir (files.join dir (codes "cache.json")) st
            ≡ ok r
          → (j : ℕ) → j < n
          → files.read_file (key_path files dir (new_wallet j)) r.1
            ≡ value (json_list (new_wallet j).private_key)
      create_all-keys num_accounts st whole e j high =
          let path = files.join dir (codes "cache.json") in
          let q = key_path files dir (new_wallet j) in
          let rounds = rounds_of (to_int num_accounts) in
          let ((args, st₁), made, e₁) =
            >>=-eq-ok (create_accounts files new_wallet dir rounds 0 [] (files.mkdir dir st)) _ e in
          let (st₂, created, e₂) = >>=-eq-ok (must (files.create path st₁)) _ e₁ in
          let c : Cache = record { args = args; accounts = to_int num_accounts } in
          let (st₃, saved, e₃) = >>=-eq-ok (save_cache files path c st₂) _ e₂ in
          let (json, written, e₄) = >>=-eq-ok (must (files.marshal c)) _ saved in
          let other = apart.cache_apart j high in
          rw (← ok-injective e₃, ← ok-injective e₄)
            (law.others path json q st₂ other
              ∙ (law.created path st₁ st₂ (must-eq-ok _ created)).1 q other
              ∙ create_accounts-keys rounds 0 [] (files.mkdir dir st) (omega (arith, whole)) made j
                  (omega arith) high)
