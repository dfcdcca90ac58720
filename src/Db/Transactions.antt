-- ===== src/Db/Transactions.antt =====
-- The stored transactions of pkg/wallet_sync/db.go. `QueryResult` is a row of the statement of
-- `Get`; its `ixs` is what `json.Unmarshal` makes of the row's JSON.
use tax_bro.Prelude.{
  Bool, true, false, List, [], ◌∷◌, ◌++◌, map, String, eq_string, ◌==◌, if◌then◌else◌, Outcome, ok,
  ◌>>=◌, must, Fallible,
}
use tax_bro.Prelude.Int.{ℤ}
use tax_bro.Text.{Bytes}
use tax_bro.Text.Hex.{decode_string}
use tax_bro.Parser.{ParsableInstruction, Event, AssociatedAccount, parse}
use tax_bro.Rpc.{index_int}
use tax_bro.Db.{Account}

-- The payload is the text of the column `data`.
pub record InstructionBase : Type 0 where
  pub program_address : String
  pub accounts : List Account
  pub payload : Bytes

pub record Instruction : Type 0 where
  pub base : InstructionBase
  pub inner_ixs : List InstructionBase

-- The getters of `instructionBase`.
unfoldable pub stored_parsable : InstructionBase → ParsableInstruction
stored_parsable ix = record {
  get_program_address = ix.program_address;
  get_account_address = λ idx. (do account ← index_int ix.accounts idx; ok account.address);
  get_data = must (decode_string ix.payload);
}

-- `parse` on `instruction`
unfoldable pub parse_stored : String → Instruction → List Event × List AssociatedAccount
parse_stored system_program_id ix =
    parse system_program_id (stored_parsable ix.base) (map stored_parsable ix.inner_ixs)

pub record Transaction : Type 0 where
  pub signature : String
  pub signature_id : ℤ
  pub ixs : List Instruction
  pub logs : List Bytes

-- `contains` on `transactions`
unfoldable pub is_stored : List Transaction → String → Bool
is_stored [] signature = false
is_stored (tx ∷ txs) signature = if tx.signature == signature then true else is_stored txs signature

pub record QueryResult : Type 0 where
  pub signature : String
  pub signature_id : ℤ
  pub ixs : Fallible (List Instruction)
  pub logs : List Bytes

-- The loop over the result of the query.
unfoldable pub add_results : List Transaction → List QueryResult → Outcome (List Transaction)
add_results txs [] = ok txs
add_results txs (qr ∷ results) = do
  ixs ← must qr.ixs
  add_results
      (txs
        ++ record {
          signature = qr.signature;
          signature_id = qr.signature_id;
          ixs = ixs;
          logs = qr.logs;
        }
          ∷ [])
      results

-- `Get`, over the query.
unfoldable pub get_transactions :
    (List String → Fallible (List QueryResult))
    → List Transaction
    → List String
    → Outcome (List Transaction)
get_transactions query txs signatures = do
  results ← must (query signatures)
  add_results txs results
