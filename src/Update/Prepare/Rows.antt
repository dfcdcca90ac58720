-- ===== src/Update/Prepare/Rows.antt =====
-- The rows of `prepareInsertableComponents` in pkg/wallet_sync/wallet_sync.go, described with no
-- loop, and when it gives them.
use text.Mathlib.TextEquality.{eq_iff}
use tax_bro.Prelude.{
  ℕ, ◌+◌, ◌≡◌, refl, true, Bool-cases, inl, inr, List, [], ◌∷◌, ◌++◌, append_assoc, append-nil, map,
  String, All, contains, eq_string, ◌==◌, Fallible, value, error, ok, arith,
}
use tax_bro.Prelude.Int.{ℤ, pos}
use tax_bro.Text.Hex.{encode_to_string}
use tax_bro.Rpc.{OnchainInstructionBase, OnchainInstruction}
use tax_bro.Rpc.Compile.{IsCovered}
use tax_bro.Rpc.Fetch.Closed.{IsClosedIx}
use tax_bro.Db.{Signature, Account, InstructionRow, InnerInstructionRow, signature_id, account_id}
use tax_bro.Db.Lawful.{values, addresses}
use tax_bro.Db.Saves.{signature_id-found, account_id-found}
use tax_bro.Update.Prepare.{
  to_int16, accounts_ids, prepare_for_insert, InsertableComponents, prepare_inner,
  prepare_instructions,
}

abbrev or_zero : Fallible ℤ → ℤ
or_zero (value id) = id
or_zero error = pos 0

-- The ids that the rows are given.
pub id_of : List Account → String → ℤ
id_of accounts address = or_zero (account_id accounts address)

pub signature_id_of : List Signature → String → ℤ
signature_id_of signatures signature = or_zero (signature_id signatures signature)

pub account_id-id_of :
    (accounts : List Account) (a : String)
    → contains (addresses accounts) a ≡ true
    → account_id accounts a ≡ value (id_of accounts a)
unfolding id_of
account_id-id_of accounts a h = let (id, e) = account_id-found accounts a h in rw e

pub signature_id-id_of :
    (signatures : List Signature) (v : String)
    → contains (values signatures) v ≡ true
    → signature_id signatures v ≡ value (signature_id_of signatures v)
unfolding signature_id_of
signature_id-id_of signatures v h = let (id, e) = signature_id-found signatures v h in rw e

module _ (accounts : List Account) where
  abbrev pub inner_rows : ℤ → ℕ → ℕ → List OnchainInstructionBase → List InnerInstructionRow
  inner_rows sid i j [] = []
  inner_rows sid i j (ix ∷ ixs) =
      record {
        signature_id = sid;
        ix_index = to_int16 i;
        index = to_int16 j;
        program_account_id = id_of accounts ix.program_address;
        accounts_ids = map (id_of accounts) ix.accounts;
        payload = encode_to_string ix.payload;
      }
      ∷ inner_rows sid i (j + 1) ixs

  abbrev pub instruction_rows : ℤ → ℕ → List OnchainInstruction → List InstructionRow
  instruction_rows sid i [] = []
  instruction_rows sid i (ix ∷ ixs) =
      record {
        signature_id = sid;
        index = to_int16 i;
        program_account_id = id_of accounts ix.base.program_address;
        accounts_ids = map (id_of accounts) ix.base.accounts;
        payload = encode_to_string ix.base.payload;
      }
      ∷ instruction_rows sid (i + 1) ixs

  abbrev pub all_inner_rows : ℤ → ℕ → List OnchainInstruction → List InnerInstructionRow
  all_inner_rows sid i [] = []
  all_inner_rows sid i (ix ∷ ixs) =
      inner_rows sid i 0 ix.inner_ixs ++ all_inner_rows sid (i + 1) ixs

  pub accounts_ids-map :
      (known : List String)
      → All (λ a. contains (addresses accounts) a ≡ true) known
      → accounts_ids accounts known ≡ value (map (id_of accounts) known)
  unfolding accounts_ids
  accounts_ids-map [] h = refl
  accounts_ids-map (a ∷ known) h =
      ground (arith, account_id-id_of accounts a h.0, accounts_ids-map known h.1)

  saved_if_known :
      (known : List String) (a : String)
      → All (λ b. contains (addresses accounts) b ≡ true) known
      → contains known a ≡ true
      → contains (addresses accounts) a ≡ true
  saved_if_known [] a h among = cc
  saved_if_known (b ∷ known) a h among = elim (Bool-cases (b == a)) [
    | inl same ↦ rw (← (eq_iff b a).0 same) h.0
    | inr other ↦ saved_if_known known a h.1 (ground arith)
  ]

  all_saved_if_known :
      (known as₁ : List String)
      → All (λ b. contains (addresses accounts) b ≡ true) known
      → All (λ a. contains known a ≡ true) as₁
      → All (λ a. contains (addresses accounts) a ≡ true) as₁
  all_saved_if_known known [] h among = tt
  all_saved_if_known known (a ∷ as₁) h among =
      (saved_if_known known a h among.0, all_saved_if_known known as₁ h among.1)

  pub prepare_for_insert-ids :
      (known : List String) (ix : OnchainInstructionBase)
      → All (λ b. contains (addresses accounts) b ≡ true) known
      → IsCovered known ix
      → prepare_for_insert ix accounts
        ≡ value (record {
          program_account_id = id_of accounts ix.program_address;
          accounts_ids = map (id_of accounts) ix.accounts;
          payload = encode_to_string ix.payload;
        })
  unfolding prepare_for_insert
  prepare_for_insert-ids known ix h covered = ground (
    arith,
    accounts_ids-map ix.accounts (all_saved_if_known known ix.accounts h covered.accounts),
    account_id-id_of accounts ix.program_address
        (saved_if_known known ix.program_address h covered.program),
  )

  prepare_inner-rows :
      (sid : ℤ) (i j : ℕ) (known : List String) (ixs : List OnchainInstructionBase)
      (c : InsertableComponents)
      → All (λ b. contains (addresses accounts) b ≡ true) known
      → All (IsCovered known) ixs
      → prepare_inner accounts sid i j ixs c
        ≡ ok (record c { inner_ixs = c.inner_ixs ++ inner_rows sid i j ixs })
  unfolding prepare_inner
  prepare_inner-rows sid i j known [] c h covered = rw append-nil
  prepare_inner-rows sid i j known (ix ∷ ixs) c h covered = rw (
    prepare_for_insert-ids known ix h covered.0,
    prepare_inner-rows sid i (j + 1) known ixs _ h covered.1,
    append_assoc,
  )

  pub prepare_instructions-rows :
      (sid : ℤ) (i : ℕ) (known : List String) (ixs : List OnchainInstruction)
      (c : InsertableComponents)
      → All (λ b. contains (addresses accounts) b ≡ true) known
      → All (IsClosedIx known) ixs
      → prepare_instructions accounts sid i ixs c
        ≡ ok (record c {
          ixs = c.ixs ++ instruction_rows sid i ixs;
          inner_ixs = c.inner_ixs ++ all_inner_rows sid i ixs;
        })
  unfolding prepare_instructions
  prepare_instructions-rows sid i known [] c h closed = simp append-nil
  prepare_instructions-rows sid i known (ix ∷ ixs) c h closed =
      rw
        (
          prepare_for_insert-ids known ix.base h closed.0.outer,
          prepare_inner-rows sid i 0 known ix.inner_ixs _ h closed.0.inner,
          prepare_instructions-rows sid (i + 1) known ixs _ h closed.1,
        )
        (simp append_assoc)
