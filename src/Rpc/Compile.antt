-- ===== src/Rpc/Compile.antt =====
-- `setFromCompiled` of pkg/wallet_sync/rpc.go: an instruction's accounts are among those of its
-- transaction.
use tax_bro.Prelude.{
  ℕ, zero, suc, ◌<◌, ◌≡◌, refl, ap, true, List, [], ◌∷◌, String, All, contains, length, eq_string,
  ok, ok-injective, >>=-eq-ok, arith,
}
use text.Mathlib.TextPositions.{eq_refl}
use tax_bro.Rpc.{
  CompiledInstruction, OnchainInstructionBase, index, resolve_accounts, set_from_compiled,
}

-- The program and the accounts of an instruction are all among `known`.
pub record IsCovered (known : List String) (ix : OnchainInstructionBase) : Type 0 where
  pub program : contains known ix.program_address ≡ true
  pub accounts : All (λ a. contains known a ≡ true) ix.accounts

pub contains-index :
    (xs : List String) (i : ℕ) {a : String} → index xs i ≡ ok a → contains xs a ≡ true
contains-index [] i h = cc
contains-index (x ∷ xs) zero {a} h = ground (arith, eq_refl x)
contains-index (x ∷ xs) (suc i) {a} h = ground (arith, contains-index xs i h)

contains-resolve_accounts :
    (idxs : List ℕ) (known : List String) {addresses : List String}
    → resolve_accounts idxs known ≡ ok addresses
    → All (λ a. contains known a ≡ true) addresses
unfolding resolve_accounts
contains-resolve_accounts [] known h = ground arith
contains-resolve_accounts (i ∷ idxs) known h =
    let (a, found, then_rest) = >>=-eq-ok (index known i) _ h in
    let (addresses, rest, whole) = >>=-eq-ok (resolve_accounts idxs known) _ then_rest in
    rw (← ok-injective whole)
      (contains-index known i found, contains-resolve_accounts idxs known rest)

pub set_from_compiled-IsCovered :
    (compiled : CompiledInstruction) (known : List String) {ix : OnchainInstructionBase}
    → set_from_compiled compiled known ≡ ok ix
    → IsCovered known ix
unfolding set_from_compiled
set_from_compiled-IsCovered compiled known h =
    let (accounts, resolved, then_program) =
      >>=-eq-ok (resolve_accounts compiled.accounts known) _ h in
    let (program, found, whole) =
      >>=-eq-ok (index known compiled.program_id_index) _ then_program in
    rw (← ok-injective whole) (record {
      program = contains-index known compiled.program_id_index found;
      accounts = contains-resolve_accounts compiled.accounts known resolved;
    })

-- Every index of the instruction is that of an account of the transaction.
abbrev pub IndicesFit : ℕ → CompiledInstruction → Type 0
IndicesFit count compiled =
    (compiled.program_id_index < count) × All (λ i. i < count) compiled.accounts

index-fits : (xs : List String) (i : ℕ) → i < length xs → (a : String) × (index xs i ≡ ok a)
index-fits [] i h = absurd (omega arith)
index-fits (x ∷ xs) zero h = (x, refl)
index-fits (x ∷ xs) (suc i) h = index-fits xs i (omega arith)

resolve_accounts-fits :
    (idxs : List ℕ) (known : List String)
    → All (λ i. i < length known) idxs
    → (addresses : List String) × (resolve_accounts idxs known ≡ ok addresses)
      × (length addresses ≡ length idxs)
unfolding resolve_accounts
resolve_accounts-fits [] known h = ([], refl, refl)
resolve_accounts-fits (i ∷ idxs) known h =
    let (a, found) = index-fits known i h.0 in
    let (addresses, resolved, same) = resolve_accounts-fits idxs known h.1 in
    (a ∷ addresses, rw (found, resolved), ap suc same)

-- If its indices fit, an instruction is compiled without a panic, with an address for each index.
pub set_from_compiled-fits :
    (compiled : CompiledInstruction) (known : List String)
    → IndicesFit (length known) compiled
    → (ix : OnchainInstructionBase) × (set_from_compiled compiled known ≡ ok ix)
      × (length ix.accounts ≡ length compiled.accounts)
      × (ix.payload ≡ compiled.payload)
unfolding set_from_compiled
set_from_compiled-fits compiled known (program_fits, accounts_fit) =
    let (program, found) = index-fits known compiled.program_id_index program_fits in
    let (addresses, resolved, same) = resolve_accounts-fits compiled.accounts known accounts_fit in
    (
      record { program_address = program; accounts = addresses; payload = compiled.payload },
      rw (resolved, found),
      same,
      refl,
    )
