-- ===== src/Tests/Solana.antt =====
-- cmd/init_solana/main.go with one account, on a disk in memory that holds the cache of a run with
-- two. Every directory is there, and a file is what was printed to it.
use tax_bro.Prelude.{
  value-injective, ℕ, zero, suc, ◌≡◌, refl, true, [], ◌∷◌, ◌++◌, if◌then◌else◌, Outcome, ok, fault,
  Fallible, value, error,
}
use tax_bro.Prelude.Int.{ℤ, pos, negsuc}
use tax_bro.Text.{bytes_eq_self, Bytes, codes, bytes_eq}
use tax_bro.InitSolana.{Cache, Wallet, Files, create_all, init_solana}
use tax_bro.InitSolana.Again.{IsFileSystem, init_solana_again}

abbrev pub Disk : Type 0
Disk = Bytes → Fallible Bytes

abbrev pub appended : Fallible Bytes → Bytes → Fallible Bytes
appended (value old) text = value (old ++ text)
appended error text = error

abbrev encode_int : ℤ → Bytes → Bytes
encode_int (pos n) args = zero ∷ n ∷ args
encode_int (negsuc n) args = suc zero ∷ n ∷ args

abbrev pub encode : Cache → Bytes
encode c = encode_int c.accounts c.args

abbrev pub decode : Bytes → Fallible Cache
decode (zero ∷ n ∷ args) = value (record { args = args; accounts = pos n })
decode (suc zero ∷ n ∷ args) = value (record { args = args; accounts = negsuc n })
decode _ = error

abbrev disk : Files
disk = record {
  State = Disk;
  is_dir = λ path st. true;
  read_file = λ path st. st path;
  create = λ path st. value (λ q. if bytes_eq path q then value [] else st q);
  print = λ path text st. (true, λ q. if bytes_eq path q then appended (st q) text else st q);
  remove_all = λ path st q. error;
  mkdir = λ path st. st;
  join = λ dir name. dir ++ codes "/" ++ name;
  marshal = λ c. value (encode c);
  unmarshal = decode;
}

decode-encode_int :
    (n : ℤ) (args : Bytes)
    → decode (encode_int n args) ≡ value (record { args = args; accounts = n })
decode-encode_int (pos n) args = refl
decode-encode_int (negsuc n) args = refl

disk-IsFileSystem : IsFileSystem disk
disk-IsFileSystem = record {
  created = λ dir st st' e.
      let path = dir ++ codes "/" ++ codes "cache.json" in
      rw (← value-injective e) (refl, rw (bytes_eq_self path) refl);
  printed = λ path text old st e h. (rw (bytes_eq_self path, h) refl, λ dir. refl);
  decoded = λ c json e. rw (← value-injective e) (decode-encode_int c.accounts c.args);
}

abbrev wallets : ℕ → Wallet
wallets i = record { public_key = codes "key"; private_key = 7 ∷ 255 ∷ i ∷ [] }

abbrev other_wallets : ℕ → Wallet
other_wallets i = record { public_key = codes "other"; private_key = [] }

abbrev two_accounts : Disk
two_accounts path = value (encode (record { args = codes "old"; accounts = pos 2 }))

abbrev result_of : Outcome (Bytes × Disk) → Bytes × Disk
result_of (ok r) = r
result_of (fault e) = ([], two_accounts)

abbrev first_run : Bytes × Disk
first_run = result_of (
    create_all disk wallets 1 (codes "/home/.solana") (codes "/home/.solana/cache.json")
      (disk.remove_all (codes "/home/.solana") two_accounts))

runs : init_solana disk wallets 1 (codes "/home") (codes ".solana") two_accounts ≡ ok first_run
unfolding init_solana
runs = refl

printed : first_run.0 ≡ codes "--account key /home/.solana/./data_key.json "
printed = refl

key_written : first_run.1 (codes "/home/.solana/./pk_key.json") ≡ value (codes "[7,255,0]")
key_written = refl

init_solana_again_example :
    init_solana disk other_wallets 1 (codes "/home") (codes ".solana") first_run.1 ≡ ok first_run
init_solana_again_example =
    init_solana_again disk disk-IsFileSystem (λ path text st. refl) wallets other_wallets 1
      (codes "/home") (codes ".solana") two_accounts runs
