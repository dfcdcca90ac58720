-- ===== src/Rpc/Fetch.antt =====
-- `fetchTransaction` of pkg/wallet_sync/rpc.go, over the client's `GetTransaction`.
pub mod Closed
pub mod Total
use tax_bro.Prelude.{
  ℕ, zero, suc, ◌*◌, ◌≡◌, refl, Bool, List, [], ◌∷◌, map, Option, none, some, String, length,
  Outcome, ok, fault, out_of_range, nil_pointer, Fallible, must, ◌>>=◌, ◌>>◌,
}
use tax_bro.Prelude.Int.{ℤ, pos}
use tax_bro.Text.{Bytes}
use tax_bro.Rpc.{
  CompiledInstruction, Message, InnerInstruction, TransactionMeta, OnchainInstructionBase,
  OnchainInstruction, OnchainTransaction, decompile_accounts, set_from_compiled, truncate,
}
use tax_bro.Rpc.Logs.{parse_logs}
use tax_bro.Rpc.Retry.{call_rpc_with_retries}

-- rpc.GetTransactionResult; `decoded` is what its `Transaction.GetTransaction()` returns, and the
-- two pointers may be nil.
pub record GetTransactionResult : Type 0 where
  pub slot : ℕ
  pub block_time : Option ℕ
  pub meta : Option TransactionMeta
  pub decoded : Fallible Message

-- A read through a pointer.
abbrev pub deref {ℓ} : {A : Type ℓ} → Option A → Outcome A
deref none = fault nil_pointer
deref (some a) = ok a

unfoldable pub compile_all :
    List CompiledInstruction → List String → Outcome (List OnchainInstructionBase)
compile_all [] accounts = ok []
compile_all (compiled ∷ rest) accounts = do
  ix ← set_from_compiled compiled accounts
  ixs ← compile_all rest accounts
  ok (ix ∷ ixs)

abbrev pub without_inner : OnchainInstructionBase → OnchainInstruction
without_inner base = record { base = base; inner_ixs = []; events = [] }

-- `ixs[i].InnerIxs = innerIxs`
unfoldable pub set_inner :
    List OnchainInstruction → ℕ → List OnchainInstructionBase → Outcome (List OnchainInstruction)
set_inner [] i inner = fault out_of_range
set_inner (ix ∷ ixs) zero inner = ok (record ix { inner_ixs = inner } ∷ ixs)
set_inner (ix ∷ ixs) (suc i) inner = do rest ← set_inner ixs i inner; ok (ix ∷ rest)

-- The loop over `meta.InnerInstructions`.
unfoldable pub attach_inner :
    List InnerInstruction
    → List String
    → List OnchainInstruction
    → Outcome (List OnchainInstruction)
attach_inner [] accounts ixs = ok ixs
attach_inner (iix ∷ rest) accounts ixs = do
  inner ← compile_all iix.instructions accounts
  ixs' ← set_inner ixs iix.index inner
  attach_inner rest accounts ixs'

-- The body behind the decoding, for a result whose pointers are not nil.
unfoldable pub assemble : String → ℕ → Message → TransactionMeta → ℕ → Outcome OnchainTransaction
assemble signature slot msg meta timestamp = do
  let accounts = decompile_accounts msg meta
  compiled ← compile_all msg.instructions accounts
  ixs ← attach_inner meta.inner_instructions accounts (map without_inner compiled)
  logs ← parse_logs meta.log_messages
  ok (record {
    signature = signature;
    err = meta.err;
    fee = meta.fee;
    timestamp = timestamp;
    timestamp_granularized = truncate timestamp (15 * 60);
    slot = slot;
    accounts = accounts;
    ixs = ixs;
    logs = logs;
  })

-- The client answers each attempt for itself; `fuel` bounds the attempts.
unfoldable pub fetch_transaction :
    (String → ℕ → Fallible GetTransactionResult) → ℕ → String → Outcome OnchainTransaction
fetch_transaction get_transaction fuel signature = do
  answer ← call_rpc_with_retries (get_transaction signature) (pos 5) fuel
  tx_res ← must answer
  msg ← must tx_res.decoded
  timestamp ← deref tx_res.block_time
  meta ← deref tx_res.meta
  assemble signature tx_res.slot msg meta timestamp
