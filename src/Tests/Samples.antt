-- ===== src/Tests/Samples.antt =====
-- The data of the tests: a transaction as the RPC answers it, with an inner instruction and logs.
use tax_bro.Prelude.{
  ℕ, zero, suc, ◌≡◌, refl, false, [], ◌∷◌, some, String, Fallible, value, error, ok,
}
use tax_bro.Prelude.Int.{ℤ, pos}
use tax_bro.Text.{Bytes, codes}
use tax_bro.Rpc.{
  CompiledInstruction, Message, InnerInstruction, TransactionMeta, OnchainInstructionBase,
  OnchainInstruction, OnchainTransaction,
}
use tax_bro.Rpc.Fetch.{GetTransactionResult, fetch_transaction}
use tax_bro.Update.{Msg, saved, onchain, last, Update}

abbrev pub message : Message
message = record {
  account_keys = "payer" ∷ "token" ∷ [];
  instructions =
      record { program_id_index = 1; accounts = 0 ∷ 2 ∷ []; payload = 1 ∷ 255 ∷ [] } ∷ [];
}

abbrev pub meta : TransactionMeta
meta = record {
  writable = "pool" ∷ [];
  read_only = [];
  inner_instructions =
      record {
        index = 0;
        instructions = record { program_id_index = 2; accounts = 0 ∷ []; payload = [] } ∷ [];
      }
      ∷ [];
  log_messages =
      codes "Program log: swap!" ∷ codes "Program data: AQID" ∷ codes "Program pool success" ∷ [];
  err = false;
  fee = 5000;
}

abbrev pub answer : GetTransactionResult
answer = record {
  slot = 77;
  block_time = some 1700000123;
  meta = some meta;
  decoded = value message;
}

-- The second attempt is answered.
abbrev pub get_transaction : String → ℕ → Fallible GetTransactionResult
get_transaction signature zero = error
get_transaction signature (suc attempt) = value answer

abbrev pub transaction : OnchainTransaction
transaction = record {
  signature = "sig";
  err = false;
  fee = 5000;
  timestamp = 1700000123;
  timestamp_granularized = 1700000100;
  slot = 77;
  accounts = "payer" ∷ "token" ∷ "pool" ∷ [];
  ixs =
      record {
        base = record {
          program_address = "token";
          accounts = "payer" ∷ "pool" ∷ [];
          payload = 1 ∷ 255 ∷ [];
        };
        inner_ixs = record { program_address = "pool"; accounts = "payer" ∷ []; payload = [] } ∷ [];
        events = [];
      }
      ∷ [];
  logs = codes "swap!" ∷ codes "010203" ∷ [];
}

pub fetched : fetch_transaction get_transaction 9 "sig" ≡ ok transaction
unfolding fetch_transaction tax_bro.Rpc.Retry.call_rpc_with_retries tax_bro.Rpc.Fetch.assemble
    tax_bro.Rpc.Fetch.compile_all tax_bro.Rpc.set_from_compiled tax_bro.Rpc.resolve_accounts
    tax_bro.Rpc.decompile_accounts tax_bro.Rpc.Fetch.attach_inner tax_bro.Rpc.Fetch.set_inner
    tax_bro.Rpc.Logs.parse_logs tax_bro.Text.Split.split tax_bro.Rpc.truncate
    tax_bro.Text.Base64.decode_string tax_bro.Text.Hex.encode_to_string
fetched = refl

abbrev pub saved_msg : ℤ → Msg
saved_msg w = saved (record { wallet_id = w; signature_id = pos 8; accounts = [] })

abbrev pub onchain_msg : ℤ → Msg
onchain_msg w = onchain (record {
  wallet_id = w;
  transaction = transaction;
  accounts = record { kind = pos 0; address = "token" } ∷ [];
})

abbrev pub last_msg : ℤ → Msg
last_msg w = last (record { wallet_id = w; signature = "sig" })

abbrev pub update : Update
update = record {
  wallet_id = pos 1;
  transactions = transaction ∷ [];
  signatures_ids = pos 8 ∷ [];
  associated_accounts = record { kind = pos 0; address = "token" } ∷ [];
  last_signature = "sig";
}
