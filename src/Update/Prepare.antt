-- ===== src/Update/Prepare.antt =====
-- `prepareForInsert` and `prepare` of pkg/wallet_sync/rpc.go, and `prepareInsertableComponents` of
-- pkg/wallet_sync/wallet_sync.go.
pub mod Rows
pub mod Components
pub mod Payload
pub mod Selected
use tax_bro.Prelude.{
  ℕ, ◌+◌, ◌-◌, ◌%◌, ◌^◌, List, [], ◌∷◌, ◌++◌, String, length, replicate, ltb, if◌then◌else◌,
  Fallible, value, error, Outcome, ok, must, ◌>>=◌,
}
use tax_bro.Prelude.Int.{ℤ, pos, negsuc}
use tax_bro.Text.{Bytes}
use tax_bro.Text.Hex.{encode_to_string}
use tax_bro.Rpc.{OnchainInstructionBase, OnchainInstruction, OnchainTransaction}
use tax_bro.Db.{
  Signature, Account, TransactionRow, InstructionRow, InnerInstructionRow, signature_id, account_id,
}

-- `int16(n)` of an index: the low 16 bits, read as a signed number.
unfoldable pub to_int16 : ℕ → ℤ
to_int16 n = let r = n % 2 ^ 16 in if ltb r (2 ^ 15) then pos r else negsuc (2 ^ 16 - 1 - r)

-- The loop over the accounts of `prepareForInsert`.
unfoldable pub accounts_ids : List Account → List String → Fallible (List ℤ)
accounts_ids inserted_accounts [] = value []
accounts_ids inserted_accounts (a ∷ accounts) = elim (account_id inserted_accounts a) [
  | error ↦ error
  | value a_id ↦ elim (accounts_ids inserted_accounts accounts) [
    | error ↦ error
    | value ids ↦ value (a_id ∷ ids)
  ]
]

pub record PreparedInstruction : Type 0 where
  pub program_account_id : ℤ
  pub accounts_ids : List ℤ
  pub payload : Bytes

-- A program that is not found is an error too: `err` keeps it through the loop.
unfoldable pub prepare_for_insert :
    OnchainInstructionBase → List Account → Fallible PreparedInstruction
prepare_for_insert oix inserted_accounts =
    let program = account_id inserted_accounts oix.program_address in
    elim (accounts_ids inserted_accounts oix.accounts) [
      | error ↦ error
      | value ids ↦ elim program [
        | error ↦ error
        | value program_account_id ↦ value (record {
          program_account_id = program_account_id;
          accounts_ids = ids;
          payload = encode_to_string oix.payload;
        })
      ]
    ]

-- `prepare` on `onchainInstruction`
unfoldable pub prepare_instruction :
    OnchainInstruction → ℤ → ℤ → List Account → Fallible InstructionRow
prepare_instruction oix signature_id ix_index inserted_accounts =
    elim (prepare_for_insert oix.base inserted_accounts) [
      | error ↦ error
      | value p ↦ value (record {
        signature_id = signature_id;
        index = ix_index;
        program_account_id = p.program_account_id;
        accounts_ids = p.accounts_ids;
        payload = p.payload;
      })
    ]

-- `prepare` on `onchainTransaction`
unfoldable pub prepare_transaction : OnchainTransaction → ℤ → List ℤ → TransactionRow
prepare_transaction otx signature_id accounts_ids = record {
  signature_id = signature_id;
  accounts_ids = accounts_ids;
  timestamp = otx.timestamp;
  timestamp_granularized = otx.timestamp_granularized;
  slot = otx.slot;
  err = otx.err;
  fee = otx.fee;
  logs = otx.logs;
}

pub record InsertableComponents : Type 0 where
  pub txs : List TransactionRow
  pub ixs : List InstructionRow
  pub inner_ixs : List InnerInstructionRow

module _ (inserted_accounts : List Account) (sid : ℤ) where
  -- The loop over the inner instructions of the instruction `ix_index`.
  unfoldable pub prepare_inner :
      ℕ → ℕ → List OnchainInstructionBase → InsertableComponents → Outcome InsertableComponents
  prepare_inner ix_index inner_ix_index [] components = ok components
  prepare_inner ix_index inner_ix_index (inner_ix ∷ rest) components = do
    p ← must (prepare_for_insert inner_ix inserted_accounts)
    let row : InnerInstructionRow = record {
      signature_id = sid;
      ix_index = to_int16 ix_index;
      index = to_int16 inner_ix_index;
      program_account_id = p.program_account_id;
      accounts_ids = p.accounts_ids;
      payload = p.payload;
    }
    prepare_inner ix_index (inner_ix_index + 1) rest
        (record components { inner_ixs = components.inner_ixs ++ row ∷ [] })

  -- The loop over the instructions of a transaction.
  unfoldable pub prepare_instructions :
      ℕ → List OnchainInstruction → InsertableComponents → Outcome InsertableComponents
  prepare_instructions ix_index [] components = ok components
  prepare_instructions ix_index (ix ∷ rest) components = do
    p ← must (prepare_for_insert ix.base inserted_accounts)
    let row : InstructionRow = record {
      signature_id = sid;
      index = to_int16 ix_index;
      program_account_id = p.program_account_id;
      accounts_ids = p.accounts_ids;
      payload = p.payload;
    }
    components' ←
        prepare_inner ix_index 0 ix.inner_ixs
          (record components { ixs = components.ixs ++ row ∷ [] })
    prepare_instructions (ix_index + 1) rest components'

-- The loop over the transactions. `make(pq.Int32Array, n)` has n zeros, and the ids are appended to
-- them.
unfoldable pub prepare_transactions :
    List OnchainTransaction
    → List Signature
    → List Account
    → InsertableComponents
    → Outcome InsertableComponents
prepare_transactions [] inserted_signatures inserted_accounts components = ok components
prepare_transactions (tx ∷ rest) inserted_signatures inserted_accounts components = do
  sid ← must (signature_id inserted_signatures tx.signature)
  ids ← must (accounts_ids inserted_accounts tx.accounts)
  let row : TransactionRow = record {
    signature_id = sid;
    accounts_ids = replicate (length tx.accounts) (pos 0) ++ ids;
    timestamp = tx.timestamp;
    timestamp_granularized = tx.timestamp_granularized;
    slot = tx.slot;
    err = tx.err;
    fee = tx.fee;
    logs = tx.logs;
  }
  components' ←
      prepare_instructions inserted_accounts sid 0 tx.ixs
        (record components { txs = components.txs ++ row ∷ [] })
  prepare_transactions rest inserted_signatures inserted_accounts components'

abbrev pub no_components : InsertableComponents
no_components = record { txs = []; ixs = []; inner_ixs = [] }

unfoldable pub prepare_insertable_components :
    List OnchainTransaction → List Signature → List Account → Outcome InsertableComponents
prepare_insertable_components transactions inserted_signatures inserted_accounts =
    prepare_transactions transactions inserted_signatures inserted_accounts no_components
