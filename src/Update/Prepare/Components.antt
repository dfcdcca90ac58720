-- ===== src/Update/Prepare/Components.antt =====
-- `prepareInsertableComponents` of pkg/wallet_sync/wallet_sync.go as a whole.
use tax_bro.Prelude.{
  ℕ, ◌≡◌, refl, true, List, [], ◌∷◌, ◌++◌, append_assoc, append-nil, map, flat_map, All, contains,
  eq_string, length, replicate, value, ok, arith,
}
use tax_bro.Prelude.Int.{ℤ, pos}
use tax_bro.Rpc.{OnchainInstruction, OnchainTransaction}
use tax_bro.Rpc.Compile.{IsCovered}
use tax_bro.Rpc.Fetch.Closed.{IsClosed}
use tax_bro.Db.{Signature, Account, TransactionRow}
use tax_bro.Db.Lawful.{values, addresses}
use tax_bro.Update.Prepare.{
  to_int16, prepare_instruction, prepare_transaction, InsertableComponents, no_components,
  prepare_transactions, prepare_insertable_components,
}
use tax_bro.Update.Prepare.Rows.{
  id_of, signature_id_of, signature_id-id_of, accounts_ids-map, instruction_rows, all_inner_rows,
  prepare_for_insert-ids, prepare_instructions-rows,
}

module _ (signatures : List Signature) (accounts : List Account) where
  abbrev pub sid_of : OnchainTransaction → ℤ
  sid_of tx = signature_id_of signatures tx.signature

  -- The ids of the transaction's accounts stand behind as many zeros.
  abbrev pub transaction_row : OnchainTransaction → TransactionRow
  transaction_row tx = record {
    signature_id = sid_of tx;
    accounts_ids = replicate (length tx.accounts) (pos 0) ++ map (id_of accounts) tx.accounts;
    timestamp = tx.timestamp;
    timestamp_granularized = tx.timestamp_granularized;
    slot = tx.slot;
    err = tx.err;
    fee = tx.fee;
    logs = tx.logs;
  }

  -- A transaction of which the signature and every account have a row, and whose instructions name
  -- its own accounts only.
  pub record IsSaved (tx : OnchainTransaction) : Type 0 where
    pub signature : contains (values signatures) tx.signature ≡ true
    pub addresses : All (λ a. contains (addresses accounts) a ≡ true) tx.accounts
    pub closed : IsClosed tx

  prepare_transactions-rows :
      (txs : List OnchainTransaction) (c : InsertableComponents)
      → All IsSaved txs
      → prepare_transactions txs signatures accounts c
        ≡ ok (record {
          txs = c.txs ++ map transaction_row txs;
          ixs = c.ixs ++ flat_map (λ tx. instruction_rows accounts (sid_of tx) 0 tx.ixs) txs;
          inner_ixs =
              c.inner_ixs ++ flat_map (λ tx. all_inner_rows accounts (sid_of tx) 0 tx.ixs) txs;
        })
  unfolding prepare_transactions
  prepare_transactions-rows [] c h = simp append-nil
  prepare_transactions-rows (tx ∷ txs) c h =
      rw
        (
          signature_id-id_of signatures tx.signature h.0.signature,
          accounts_ids-map accounts tx.accounts h.0.addresses,
          prepare_instructions-rows accounts (sid_of tx) 0 tx.accounts tx.ixs _ h.0.addresses
              h.0.closed,
          prepare_transactions-rows txs _ h.1,
        )
        (simp append_assoc)

  -- For transactions of which the signatures and the accounts were saved, and whose instructions
  -- name their own accounts only, no assertion fails, and the rows are exactly these: one for each
  -- transaction, one for each instruction with its position, one for each inner instruction with
  -- both positions, each with the ids of its own signature, program and accounts and the hex of its
  -- data. The account ids of a transaction's row stand behind as many zeros.
  pub prepare_insertable_components-rows :
      (txs : List OnchainTransaction)
      → All IsSaved txs
      → prepare_insertable_components txs signatures accounts
        ≡ ok (record {
          txs = map transaction_row txs;
          ixs = flat_map (λ tx. instruction_rows accounts (sid_of tx) 0 tx.ixs) txs;
          inner_ixs = flat_map (λ tx. all_inner_rows accounts (sid_of tx) 0 tx.ixs) txs;
        })
  unfolding prepare_insertable_components
  prepare_insertable_components-rows txs h = prepare_transactions-rows txs no_components h

  -- The method `prepare` gives, for a transaction and for each of its instructions that name its own
  -- accounts, the rows that the loops build inline, but for the zeros.
  pub prepare-rows :
      (tx : OnchainTransaction) (ix : OnchainInstruction) (i : ℕ)
      → IsSaved tx
      → IsCovered tx.accounts ix.base
      → (prepare_transaction tx (sid_of tx) (transaction_row tx).accounts_ids ≡ transaction_row tx)
        × (map value (instruction_rows accounts (sid_of tx) i (ix ∷ []))
            ≡ prepare_instruction ix (sid_of tx) (to_int16 i) accounts ∷ [])
  unfolding prepare_transaction prepare_instruction
  prepare-rows tx ix i h covered = (
    refl,
    ground (arith, prepare_for_insert-ids accounts tx.accounts ix.base h.addresses covered),
  )
