-- ===== src/Rpc/Fetch/Total.antt =====
-- `fetchTransaction` of pkg/wallet_sync/rpc.go returns, for a well-formed answer of the client.
use tax_bro.Prelude.{
  ℕ, zero, suc, ◌+◌, ◌*◌, ◌%◌, ◌≤◌, ◌<◌, ◌≡◌, refl, sym, ap, List, [], ◌∷◌, map, String, All,
  length, length-map, ok, Fallible, value, error, arith, some, ◌∙◌,
}
use tax_bro.Rpc.{
  CompiledInstruction, Message, InnerInstruction, TransactionMeta, OnchainInstructionBase,
  OnchainInstruction, OnchainTransaction, decompile_accounts, truncate,
}
use tax_bro.Rpc.Compile.{IndicesFit, set_from_compiled-fits}
use tax_bro.Rpc.Logs.{IsReadable, parse_logs-total}
use tax_bro.Rpc.Retry.{call_rpc_with_retries-success}
use tax_bro.Rpc.Fetch.{
  GetTransactionResult, compile_all, without_inner, set_inner, attach_inner, assemble,
  fetch_transaction,
}

compile_all-fits :
    (compiled : List CompiledInstruction) (known : List String)
    → All (IndicesFit (length known)) compiled
    → (ixs : List OnchainInstructionBase) × (compile_all compiled known ≡ ok ixs)
      × (length ixs ≡ length compiled)
unfolding compile_all
compile_all-fits [] known h = ([], refl, refl)
compile_all-fits (c ∷ compiled) known h =
    let (ix, one, accounts, payload) = set_from_compiled-fits c known h.0 in
    let (ixs, rest, same) = compile_all-fits compiled known h.1 in
    (ix ∷ ixs, rw (one, rest), ap suc same)

set_inner-fits :
    (ixs : List OnchainInstruction) (i : ℕ) (inner : List OnchainInstructionBase)
    → i < length ixs
    → (ixs' : List OnchainInstruction) × (set_inner ixs i inner ≡ ok ixs')
      × (length ixs' ≡ length ixs)
unfolding set_inner
set_inner-fits [] i inner h = absurd (omega arith)
set_inner-fits (ix ∷ ixs) zero inner h = (record ix { inner_ixs = inner } ∷ ixs, refl, refl)
set_inner-fits (ix ∷ ixs) (suc i) inner h =
    let (rest, done, same) = set_inner-fits ixs i inner (omega arith) in
    (ix ∷ rest, rw done, ap suc same)

-- A group of inner instructions belongs to one of the `outer` instructions, and its indices fit.
pub record GroupFits (outer count : ℕ) (iix : InnerInstruction) : Type 0 where
  pub owner : iix.index < outer
  pub indices : All (IndicesFit count) iix.instructions

attach_inner-fits :
    (groups : List InnerInstruction) (known : List String) (outer : ℕ)
    (ixs : List OnchainInstruction)
    → outer ≡ length ixs
    → All (GroupFits outer (length known)) groups
    → (ixs' : List OnchainInstruction) × (attach_inner groups known ixs ≡ ok ixs')
unfolding attach_inner
attach_inner-fits [] known outer ixs e h = (ixs, refl)
attach_inner-fits (iix ∷ groups) known outer ixs e h =
    let (inner, compiled, _) = compile_all-fits iix.instructions known h.0.indices in
    let owner = h.0.owner in
    let (ixs₁, set_here, same) = set_inner-fits ixs iix.index inner (rw (← e) owner) in
    let (ixs₂, rest) = attach_inner-fits groups known outer ixs₁ (e ∙ sym same) h.1 in
    (ixs₂, rw (compiled, set_here, rest))

-- What a validator's answer meets: every index is that of an account of the transaction, every group
-- of inner instructions belongs to an instruction, and the logs can be read.
pub record IsWellFormed (msg : Message) (meta : TransactionMeta) : Type 0 where
  pub outer : All (IndicesFit (length (decompile_accounts msg meta))) msg.instructions
  pub inner :
      All
        (GroupFits (length msg.instructions) (length (decompile_accounts msg meta)))
        meta.inner_instructions
  pub logs : All IsReadable meta.log_messages

assemble-total :
    (signature : String) (slot : ℕ) (msg : Message) (meta : TransactionMeta) (timestamp : ℕ)
    → IsWellFormed msg meta
    → (tx : OnchainTransaction) × (assemble signature slot msg meta timestamp ≡ ok tx)
unfolding assemble
assemble-total signature slot msg meta timestamp w =
    let known = decompile_accounts msg meta in
    let (bases, compiled, same) = compile_all-fits msg.instructions known w.outer in
    let ixs = map without_inner bases in
    let count = length-map without_inner bases ∙ same in
    let (ixs', attached) =
      attach_inner-fits meta.inner_instructions known (length msg.instructions) ixs (sym count)
        w.inner in
    let (logs, read) = parse_logs-total meta.log_messages w.logs in
    (
      record {
        signature = signature;
        err = meta.err;
        fee = meta.fee;
        timestamp = timestamp;
        timestamp_granularized = truncate timestamp (15 * 60);
        slot = slot;
        accounts = known;
        ixs = ixs';
        logs = logs;
      },
      rw (compiled, attached, read),
    )

-- If the client first answers after `wait` failed attempts, with a transaction that decodes, has its
-- time and its meta data, and is well formed, then the transaction is fetched, and nothing panics.
pub fetch_transaction-total :
    (get_transaction : String → ℕ → Fallible GetTransactionResult) (wait fuel : ℕ)
    (signature : String) (tx_res : GetTransactionResult) (msg : Message) (meta : TransactionMeta)
    (timestamp : ℕ)
    → wait < fuel
    → ((j : ℕ) → j < wait → get_transaction signature j ≡ error)
    → get_transaction signature wait ≡ value tx_res
    → tx_res.decoded ≡ value msg
    → tx_res.meta ≡ some meta
    → tx_res.block_time ≡ some timestamp
    → IsWellFormed msg meta
    → (tx : OnchainTransaction) × (fetch_transaction get_transaction fuel signature ≡ ok tx)
unfolding fetch_transaction
fetch_transaction-total get_transaction wait fuel signature tx_res msg meta timestamp h fails
      answers decodes has_meta has_time w =
    let called =
      call_rpc_with_retries-success (get_transaction signature) 5 wait fuel tx_res (omega arith) h
        fails answers in
    let (tx, done) = assemble-total signature tx_res.slot msg meta timestamp w in
    (tx, rw (called, decodes, has_time, has_meta, done))

-- The granularized time is the start of the quarter of an hour, counted from 1970, in which the
-- timestamp lies.
truncate_bounds :
    (t : ℕ)
    → (truncate t (15 * 60) ≤ t)
      × (t < truncate t (15 * 60) + 900)
      × (truncate t (15 * 60) % 900 ≡ 0)
unfolding truncate
truncate_bounds t = omega arith
