-- ===== src/InitSolana.antt =====
-- cmd/init_solana/main.go: the accounts of a local validator, and the cache of its arguments. The
-- file system, encoding/json, filepath.Join and the making of wallets are services.
pub mod Again
pub mod Created
pub mod Keys
use tax_bro.Prelude.{
  ℕ, zero, suc, ◌+◌, ◌-◌, ◌%◌, ◌^◌, ◌/◌, ◌&&◌, Bool, List, [], ◌∷◌, ◌++◌, ltb, length, ◌==◌,
  if◌then◌else◌, Outcome, ok, fault, assertion, assert, ◌>>=◌, ◌>>◌, must, Fallible, value, error,
}
use tax_bro.Prelude.Int.{ℤ, pos, negsuc, eq_int}
use tax_bro.Text.{Bytes, codes}

-- `cache`
pub record Cache : Type 0 where
  pub args : Bytes
  pub accounts : ℤ

-- solana.Wallet, with the text of its public key.
pub record Wallet : Type 0 where
  pub public_key : Bytes
  pub private_key : List ℕ

-- `is_dir`: `os.Stat` succeeds and finds a directory. `create` empties a file. `print` writes to the
-- end of a file that was created, and tells whether it could. The errors of `os.RemoveAll` and
-- `os.Mkdir` are not looked at.
pub record Files : Type 1 where
  pub State : Type 0
  pub is_dir : Bytes → State → Bool
  pub read_file : Bytes → State → Fallible Bytes
  pub create : Bytes → State → Fallible State
  pub print : Bytes → Bytes → State → Bool × State
  pub remove_all : Bytes → State → State
  pub mkdir : Bytes → State → State
  pub join : Bytes → Bytes → Bytes
  pub marshal : Cache → Fallible Bytes
  pub unmarshal : Bytes → Fallible Cache

-- How `loadCache` ends.
pub data Loaded : Type 0 where
  cached : Cache → Loaded
  no_cache unreadable : Loaded

-- `int` of a `uint`.
abbrev pub to_int : ℕ → ℤ
to_int n = let r = n % 2 ^ 64 in if ltb r (2 ^ 63) then pos r else negsuc (2 ^ 64 - 1 - r)

-- The rounds of a loop up to it.
abbrev pub rounds_of : ℤ → ℕ
rounds_of (pos n) = n
rounds_of (negsuc n) = 0

-- `%d` of a byte.
abbrev pub decimal : ℕ → Bytes
decimal b =
    let last = (48 + b % 10) ∷ [] in
    let tens = (48 + b / 10 % 10) ∷ last in
    if ltb b 10 then last else if ltb b 100 then tens else (48 + b / 100) ∷ tens

abbrev pub from_json : Fallible Cache → Loaded
from_json (value c) = cached c
from_json error = unreadable

module _ (files : Files) where
  -- A print whose error is asserted to be nil.
  abbrev pub must_print : Bytes → Bytes → files.State → Outcome files.State
  must_print path text st =
      if (files.print path text st).0 then ok (files.print path text st).1 else fault assertion

  -- `cache.save` at a file. The error of the print is not looked at.
  abbrev pub save_cache : Bytes → Cache → files.State → Outcome files.State
  save_cache path c st = do json ← must (files.marshal c); ok (files.print path json st).1

  -- `loadCache`
  abbrev pub load_cache : Bytes → Bytes → files.State → Outcome Loaded
  load_cache dir path st =
      if files.is_dir dir st
      then (do content ← must (files.read_file path st); ok (from_json (files.unmarshal content)))
      else ok no_cache

  -- The loop over the bytes of a key, from the index on, with the number of them all.
  abbrev pub print_bytes : Bytes → ℕ → ℕ → List ℕ → files.State → Outcome files.State
  print_bytes path count i [] st = ok st
  print_bytes path count i (b ∷ bytes) st = do
    st₁ ← (if ltb 0 i && ltb i count then must_print path (codes ",") st else ok st)
    st₂ ← must_print path (decimal b) st₁
    print_bytes path count (i + 1) bytes st₂

  -- `savePrivateKey`
  abbrev pub save_private_key : Bytes → Wallet → files.State → Outcome files.State
  save_private_key dir wallet st = do
    let path = files.join dir (codes "./pk_" ++ wallet.public_key ++ codes ".json")
    st₁ ← must (files.create path st)
    st₂ ← must_print path (codes "[") st₁
    st₃ ← print_bytes path (length wallet.private_key) 0 wallet.private_key st₂
    must_print path (codes "]") st₃

  -- `saveData`
  abbrev pub save_data : Bytes → Bytes → files.State → Outcome (Bytes × files.State)
  save_data dir public_key st = do
    let path = files.join dir (codes "./data_" ++ public_key ++ codes ".json")
    st₁ ← must (files.create path st)
    st₂ ←
        must_print path
          (codes "{\"pubkey\": \""
            ++ public_key
            ++ codes
                "\",\"account\": {\"lamports\": 100000000000,\"data\": [\"\", \"base64\"],\"owner\": \"11111111111111111111111111111111\",\"executable\": false,\"rentEpoch\": 18446744073709551615,\"space\": 0}}")
          st₁
    ok (path, st₂)

  -- `new_wallet` takes the number of its call.
  module _ (new_wallet : ℕ → Wallet) where
    -- The loop over the accounts.
    abbrev pub create_accounts : Bytes → ℕ → ℕ → Bytes → files.State → Outcome (Bytes × files.State)
    create_accounts dir zero i args st = ok (args, st)
    create_accounts dir (suc rounds) i args st = do
      let wallet = new_wallet i
      st₁ ← save_private_key dir wallet st
      (path, st₂) ← save_data dir wallet.public_key st₁
      create_accounts dir rounds (i + 1)
          (args ++ codes "--account " ++ wallet.public_key ++ codes " " ++ path ++ codes " ") st₂

    -- `main` from the making of the directory on. The first result is what is printed.
    abbrev pub create_all : ℕ → Bytes → Bytes → files.State → Outcome (Bytes × files.State)
    create_all num_accounts dir path st = do
      let accounts = to_int num_accounts
      (args, st₁) ← create_accounts dir (rounds_of accounts) 0 [] (files.mkdir dir st)
      st₂ ← must (files.create path st₁)
      st₃ ← save_cache path (record { args = args; accounts = accounts }) st₂
      ok (args, st₃)

    abbrev pub with_cache : ℕ → Bytes → Bytes → files.State → Loaded → Outcome (Bytes × files.State)
    with_cache num_accounts dir path st (cached c) =
        if c.accounts == to_int num_accounts
        then ok (c.args, st)
        else create_all num_accounts dir path (files.remove_all dir st)
    with_cache num_accounts dir path st no_cache = create_all num_accounts dir path st
    with_cache num_accounts dir path st unreadable = fault assertion

    -- `main` at its flags.
    unfoldable pub init_solana : ℕ → Bytes → Bytes → files.State → Outcome (Bytes × files.State)
    init_solana num_accounts project_dir solana_dir_name st = do
      assert (ltb 0 num_accounts)
      assert (ltb 0 (length project_dir))
      let dir = files.join project_dir solana_dir_name
      let path = files.join dir (codes "cache.json")
      c ← load_cache dir path st
      with_cache num_accounts dir path st c
