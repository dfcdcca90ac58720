-- ===== src/Rpc.antt =====
-- pkg/wallet_sync/rpc.go: what is read from the chain. The records of
-- github.com/gagliardetto/solana-go have the fields that the program reads, with public keys and
-- signatures in their base58 text.
pub mod Logs
pub mod Compile
pub mod Fetch
pub mod Retry
use tax_bro.Prelude.{
  ℕ, zero, suc, ◌+◌, ◌-◌, ◌%◌, ◌*◌, Bool, true, false, List, [], ◌∷◌, ◌++◌, map, Option, none, some,
  String, length, get_elem?, Outcome, ok, fault, out_of_range, ◌>>=◌,
}
use tax_bro.Prelude.Int.{ℤ, pos, negsuc}
use tax_bro.Text.{Bytes}
use tax_bro.Parser.{ParsableInstruction, Event}

-- solana.CompiledInstruction
pub record CompiledInstruction : Type 0 where
  pub program_id_index : ℕ
  pub accounts : List ℕ
  pub payload : Bytes

-- solana.Message
pub record Message : Type 0 where
  pub account_keys : List String
  pub instructions : List CompiledInstruction

-- rpc.InnerInstruction
pub record InnerInstruction : Type 0 where
  pub index : ℕ
  pub instructions : List CompiledInstruction

-- rpc.TransactionMeta
pub record TransactionMeta : Type 0 where
  pub writable : List String
  pub read_only : List String
  pub inner_instructions : List InnerInstruction
  pub log_messages : List Bytes
  pub err : Bool
  pub fee : ℕ

-- A slice index, which panics out of range.
abbrev pub index {ℓ} : {A : Type ℓ} → List A → ℕ → Outcome A
index [] i = fault out_of_range
index (x ∷ xs) zero = ok x
index (x ∷ xs) (suc i) = index xs i

abbrev pub index_int {ℓ} : {A : Type ℓ} → List A → ℤ → Outcome A
index_int xs (pos i) = index xs i
index_int xs (negsuc i) = fault out_of_range

unfoldable pub decompile_accounts : Message → TransactionMeta → List String
decompile_accounts msg meta = (msg.account_keys ++ meta.writable) ++ meta.read_only

pub record OnchainInstructionBase : Type 0 where
  pub program_address : String
  pub accounts : List String
  pub payload : Bytes

-- The methods `GetProgramAddress`, `GetAccountAddress` and `GetData`.
unfoldable pub as_parsable : OnchainInstructionBase → ParsableInstruction
as_parsable oix = record {
  get_program_address = oix.program_address;
  get_account_address = λ idx. index_int oix.accounts idx;
  get_data = ok oix.payload;
}

-- The loop of `setFromCompiled` over the account indices.
unfoldable pub resolve_accounts : List ℕ → List String → Outcome (List String)
resolve_accounts [] tx_accounts = ok []
resolve_accounts (account_idx ∷ rest) tx_accounts = do
  address ← index tx_accounts account_idx
  addresses ← resolve_accounts rest tx_accounts
  ok (address ∷ addresses)

unfoldable pub set_from_compiled :
    CompiledInstruction → List String → Outcome OnchainInstructionBase
set_from_compiled compiled tx_accounts = do
  accounts ← resolve_accounts compiled.accounts tx_accounts
  program_address ← index tx_accounts compiled.program_id_index
  ok (record { program_address = program_address; accounts = accounts; payload = compiled.payload })

pub record OnchainInstruction : Type 0 where
  pub base : OnchainInstructionBase
  pub inner_ixs : List OnchainInstructionBase
  pub events : List Event

-- Times are seconds since 1970; a block of an earlier time is not modelled.
pub record OnchainTransaction : Type 0 where
  pub signature : String
  pub err : Bool
  pub fee : ℕ
  pub timestamp : ℕ
  pub timestamp_granularized : ℕ
  pub slot : ℕ
  pub accounts : List String
  pub ixs : List OnchainInstruction
  pub logs : List Bytes

-- The seconds from the zero time of package `time` to 1970.
abbrev pub zero_time_offset : ℕ
zero_time_offset = 62135596800

-- `t.Truncate(d)` rounds down to a multiple of `d` since the zero time.
unfoldable pub truncate : ℕ → ℕ → ℕ
truncate t d = t - (t + zero_time_offset) % d
