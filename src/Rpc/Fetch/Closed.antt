-- ===== src/Rpc/Fetch/Closed.antt =====
-- `fetchTransaction` of pkg/wallet_sync/rpc.go: what holds of every transaction that it returns.
use tax_bro.Prelude.{
  ℕ, zero, suc, ◌≡◌, refl, ap, List, [], ◌∷◌, map, String, All, length, length-map, ok, Fallible,
  must, >>=-eq-ok, ok-injective, ◌∙◌,
}
use tax_bro.Prelude.Int.{pos}
use tax_bro.Rpc.{
  CompiledInstruction, Message, InnerInstruction, TransactionMeta, OnchainInstructionBase,
  OnchainInstruction, OnchainTransaction, decompile_accounts, set_from_compiled,
}
use tax_bro.Rpc.Compile.{IsCovered, set_from_compiled-IsCovered}
use tax_bro.Rpc.Logs.{parse_logs}
use tax_bro.Rpc.Retry.{call_rpc_with_retries}
use tax_bro.Rpc.Fetch.{
  GetTransactionResult, deref, compile_all, without_inner, set_inner, attach_inner, assemble,
  fetch_transaction,
}

-- An instruction and its inner instructions name accounts among `known` only.
pub record IsClosedIx (known : List String) (ix : OnchainInstruction) : Type 0 where
  pub outer : IsCovered known ix.base
  pub inner : All (IsCovered known) ix.inner_ixs

abbrev pub IsClosed : OnchainTransaction → Type 0
IsClosed tx = All (IsClosedIx tx.accounts) tx.ixs

compile_all-IsCovered :
    (compiled : List CompiledInstruction) (known : List String) {ixs : List OnchainInstructionBase}
    → compile_all compiled known ≡ ok ixs
    → All (IsCovered known) ixs × (length ixs ≡ length compiled)
unfolding compile_all
compile_all-IsCovered [] known h = rw (← ok-injective h) (tt, refl)
compile_all-IsCovered (c ∷ compiled) known h =
    let (ix, one, then_rest) = >>=-eq-ok (set_from_compiled c known) _ h in
    let (ixs, rest, whole) = >>=-eq-ok (compile_all compiled known) _ then_rest in
    let (covered, same) = compile_all-IsCovered compiled known rest in
    rw (← ok-injective whole) ((set_from_compiled-IsCovered c known one, covered), ap suc same)

without_inner-IsClosedIx :
    (known : List String) (ixs : List OnchainInstructionBase)
    → All (IsCovered known) ixs
    → All (IsClosedIx known) (map without_inner ixs)
without_inner-IsClosedIx known [] h = tt
without_inner-IsClosedIx known (ix ∷ ixs) h =
    (record { outer = h.0; inner = tt }, without_inner-IsClosedIx known ixs h.1)

set_inner-IsClosedIx :
    (known : List String) (ixs : List OnchainInstruction) (i : ℕ)
    (inner : List OnchainInstructionBase) {ixs' : List OnchainInstruction}
    → All (IsClosedIx known) ixs
    → All (IsCovered known) inner
    → set_inner ixs i inner ≡ ok ixs'
    → All (IsClosedIx known) ixs' × (length ixs' ≡ length ixs)
unfolding set_inner
set_inner-IsClosedIx known [] i inner closed covered h = cc
set_inner-IsClosedIx known (ix ∷ ixs) zero inner closed covered h =
    rw (← ok-injective h) ((record { outer = closed.0.outer; inner = covered }, closed.1), refl)
set_inner-IsClosedIx known (ix ∷ ixs) (suc i) inner closed covered h =
    let (rest, done, whole) = >>=-eq-ok (set_inner ixs i inner) _ h in
    let (closed', same) = set_inner-IsClosedIx known ixs i inner closed.1 covered done in
    rw (← ok-injective whole) ((closed.0, closed'), ap suc same)

attach_inner-IsClosedIx :
    (groups : List InnerInstruction) (known : List String) (ixs : List OnchainInstruction)
    {ixs' : List OnchainInstruction}
    → All (IsClosedIx known) ixs
    → attach_inner groups known ixs ≡ ok ixs'
    → All (IsClosedIx known) ixs' × (length ixs' ≡ length ixs)
unfolding attach_inner
attach_inner-IsClosedIx [] known ixs closed h = rw (← ok-injective h) (closed, refl)
attach_inner-IsClosedIx (iix ∷ groups) known ixs closed h =
    let (inner, compiled, then_set) = >>=-eq-ok (compile_all iix.instructions known) _ h in
    let (ixs₁, set_here, then_rest) = >>=-eq-ok (set_inner ixs iix.index inner) _ then_set in
    let covered = (compile_all-IsCovered iix.instructions known compiled).0 in
    let (closed₁, same₁) = set_inner-IsClosedIx known ixs iix.index inner closed covered set_here in
    let (closed₂, same₂) = attach_inner-IsClosedIx groups known ixs₁ closed₁ then_rest in
    (closed₂, same₂ ∙ same₁)

assemble-IsClosed :
    (signature : String) (slot : ℕ) (msg : Message) (meta : TransactionMeta) (timestamp : ℕ)
    {tx : OnchainTransaction}
    → assemble signature slot msg meta timestamp ≡ ok tx
    → IsClosed tx × (length tx.ixs ≡ length msg.instructions) × (tx.signature ≡ signature)
unfolding assemble
assemble-IsClosed signature slot msg meta timestamp h =
    let known = decompile_accounts msg meta in
    let (bases, compiled, h₁) = >>=-eq-ok (compile_all msg.instructions known) _ h in
    let (ixs, attached, h₂) =
      >>=-eq-ok (attach_inner meta.inner_instructions known (map without_inner bases)) _ h₁ in
    let (logs, parsed, whole) = >>=-eq-ok (parse_logs meta.log_messages) _ h₂ in
    let (covered, same) = compile_all-IsCovered msg.instructions known compiled in
    let closed = without_inner-IsClosedIx known bases covered in
    let (closed', same') =
      attach_inner-IsClosedIx meta.inner_instructions known (map without_inner bases) closed
        attached in
    rw (← ok-injective whole) (closed', same' ∙ length-map without_inner bases ∙ same, refl)

-- Whenever a transaction is fetched, it carries the signature that was asked for, and every program
-- and account of its instructions and of their inner instructions is among the transaction's own
-- accounts.
pub fetch_transaction-IsClosed :
    (get_transaction : String → ℕ → Fallible GetTransactionResult) (fuel : ℕ) (signature : String)
    {tx : OnchainTransaction}
    → fetch_transaction get_transaction fuel signature ≡ ok tx
    → IsClosed tx × (tx.signature ≡ signature)
unfolding fetch_transaction
fetch_transaction-IsClosed get_transaction fuel signature h =
    let (answer, called, h₁) =
      >>=-eq-ok (call_rpc_with_retries (get_transaction signature) (pos 5) fuel) _ h in
    let (tx_res, kept, h₂) = >>=-eq-ok (must answer) _ h₁ in
    let (msg, decoded, h₃) = >>=-eq-ok (must tx_res.decoded) _ h₂ in
    let (timestamp, timed, h₄) = >>=-eq-ok (deref tx_res.block_time) _ h₃ in
    let (meta, found, h₅) = >>=-eq-ok (deref tx_res.meta) _ h₄ in
    let (closed, same, signed) = assemble-IsClosed signature tx_res.slot msg meta timestamp h₅ in
    (closed, signed)
