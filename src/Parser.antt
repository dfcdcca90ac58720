-- ===== src/Parser.antt =====
-- pkg/instructions_parser/parser.go
use tax_bro.Prelude.{List, [], String, ◌==◌, eq_string, Outcome, if◌then◌else◌}
use tax_bro.Prelude.Int.{ℤ}
use tax_bro.Text.{Bytes}

-- The interface that both kinds of instruction meet. An index out of range, or data that is no hex,
-- ends the process.
pub record ParsableInstruction : Type 0 where
  pub get_program_address : String
  pub get_account_address : ℤ → Outcome String
  pub get_data : Outcome Bytes

pub record EventData : Type 0 where
  pub serialize : String

pub record Event : Type 0 where
  pub kind : ℤ
  pub payload : EventData

pub record AssociatedAccount : Type 0 where
  pub kind : ℤ
  pub address : String

-- `Parse`, whose only case has no statement yet. The id of the system program is a constant of
-- github.com/gagliardetto/solana-go.
unfoldable pub parse :
    String → ParsableInstruction → List ParsableInstruction → List Event × List AssociatedAccount
parse system_program_id instruction inner_instructions =
    if instruction.get_program_address == system_program_id then ([], []) else ([], [])
