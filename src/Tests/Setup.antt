-- ===== src/Tests/Setup.antt =====
-- `SetupSolana` of pkg/test_utils/solana.go behind cmd/init_solana/main.go with two accounts, on an
-- empty disk in memory.
use tax_bro.Prelude.{
  value-injective, ℕ, zero, suc, ◌+◌, ◌<◌, ◌≡◌, refl, sym, true, false, Bool, List, [], ◌∷◌, ◌++◌,
  map, flat_map, if◌then◌else◌, Outcome, ok, fault, Fallible, value, error, arith, ap,
}
use tax_bro.Text.{bytes_eq_self, bytes_eq_apart, Bytes, codes, bytes_eq}
use tax_bro.InitSolana.{Wallet, Files, create_all, init_solana}
use tax_bro.InitSolana.Keys.{IsDisk}
use tax_bro.InitSolana.Created.{IsApart, key_path}
use tax_bro.SetupSolana.{setup_solana}
use tax_bro.SetupSolana.Loaded.{
  folder, cache, key_of, data_of, Item, entry_of, keys_of, Decodes, setup_solana-init_solana,
}
use tax_bro.Tests.Solana.{Disk, appended, encode, decode}

abbrev is_there : Fallible Bytes → Bool
is_there (value content) = true
is_there error = false

-- A folder is there if its cache is.
abbrev disk : Files
disk = record {
  State = Disk;
  is_dir = λ path st. is_there (st (path ++ codes "/cache.json"));
  read_file = λ path st. st path;
  create = λ path st. value (λ q. if bytes_eq path q then value [] else st q);
  print = λ path text st. (true, λ q. if bytes_eq path q then appended (st q) text else st q);
  remove_all = λ path st q. error;
  mkdir = λ path st. st;
  join = λ dir name. dir ++ codes "/" ++ name;
  marshal = λ c. value (encode c);
  unmarshal = decode;
}

disk-IsDisk : IsDisk disk
disk-IsDisk = record {
  created = λ p st st' e.
      rw (← value-injective e) (rw (bytes_eq_self p) refl, λ q ne. rw (bytes_eq_apart p q ne) refl);
  printed = λ p text old st fine h. rw (bytes_eq_self p, h) refl;
  others = λ p text q st ne. rw (bytes_eq_apart p q ne) refl;
}

abbrev wallets : ℕ → Wallet
wallets i = record { public_key = (65 + i) ∷ []; private_key = 7 ∷ 255 ∷ i ∷ [] }

abbrev dir : Bytes
dir = codes "/home/.solana"

abbrev letter_at : ℕ → Bytes → ℕ
letter_at i [] = 0
letter_at zero (c ∷ path) = c
letter_at (suc i) (c ∷ path) = letter_at i path

differ : (i : ℕ) (p q : Bytes) → letter_at i p < letter_at i q → p ≡ q → ⊥
differ i p q lower e = let same = ap (letter_at i) e in omega arith

wallets-IsApart : IsApart disk dir wallets 2
wallets-IsApart = record {
  keys = apart;
  data_apart = λ j k _ _ e. differ 16 _ _ (omega arith) (sym e);
  cache_apart = λ j _ e. differ 14 _ _ (omega arith) e;
}
  where
    apart :
        (j k : ℕ)
        → j < 2
        → k < 2
        → key_path disk dir (wallets j) ≡ key_path disk dir (wallets k)
        → j ≡ k
    apart zero zero p q e = refl
    apart zero (suc zero) p q e = absurd (differ 19 _ _ (omega arith) e)
    apart (suc zero) zero p q e = absurd (differ 19 _ _ (omega arith) (sym e))
    apart (suc zero) (suc zero) p q e = refl
    apart (suc (suc j)) k p q e = absurd (omega arith)
    apart j (suc (suc k)) p q e = absurd (omega arith)

abbrev key_in : Fallible Bytes → Fallible (List ℕ)
key_in error = error
key_in (value content) =
    if bytes_eq content (codes "[7,255,0]")
    then value (7 ∷ 255 ∷ 0 ∷ [])
    else if bytes_eq content (codes "[7,255,1]")
    then value (7 ∷ 255 ∷ 1 ∷ [])
    else error

abbrev read_key : Disk → Bytes → Fallible (List ℕ)
read_key st path = key_in (st path)

wallets-Decodes : Decodes disk dir wallets read_key 2
wallets-Decodes st zero h e = rw e refl
wallets-Decodes st (suc zero) h e = rw e refl
wallets-Decodes st (suc (suc j)) h e = absurd (omega arith)

abbrev empty : Disk
empty path = error

abbrev result_of : Outcome (Bytes × Disk) → Bytes × Disk
result_of (ok r) = r
result_of (fault e) = ([], empty)

abbrev first_run : Bytes × Disk
first_run =
    result_of
      (create_all disk wallets 2 (codes "/home/.solana") (codes "/home/.solana/cache.json") empty)

runs : init_solana disk wallets 2 (codes "/home") (codes ".solana") empty ≡ ok first_run
unfolding init_solana
runs = refl

abbrev items : List Item
items = folder ∷ cache ∷ data_of 0 ∷ data_of 1 ∷ key_of 0 ∷ key_of 1 ∷ []

setup_solana-init_solana_example :
    setup_solana (read_key first_run.1) (map (entry_of disk dir wallets) items)
    ≡ ok (flat_map (keys_of disk dir wallets) items)
setup_solana-init_solana_example =
    setup_solana-init_solana disk disk-IsDisk wallets read_key 2 (codes "/home") (codes ".solana")
      empty wallets-IsApart wallets-Decodes refl runs items
      (tt, (tt, (omega arith, (omega arith, (omega arith, (omega arith, tt))))))
