-- ===== src/Update.antt =====
-- The messages and the `update` of pkg/wallet_sync/wallet_sync.go. The queue holds values of any
-- type; only the three message types are ever appended to it.
pub mod Prepare
pub mod Save
pub mod User
use tax_bro.Prelude.{String, List, []}
use tax_bro.Prelude.Int.{ℤ, negsuc}
use tax_bro.Parser.{AssociatedAccount}
use tax_bro.Rpc.{OnchainTransaction}

pub record ParsedSavedTransactionMsg : Type 0 where
  pub wallet_id : ℤ
  pub signature_id : ℤ
  pub accounts : List AssociatedAccount

pub record ParsedOnchainTransactionMsg : Type 0 where
  pub wallet_id : ℤ
  pub transaction : OnchainTransaction
  pub accounts : List AssociatedAccount

-- `lasgTransactionMsg`
pub record LastTransactionMsg : Type 0 where
  pub wallet_id : ℤ
  pub signature : String

pub data Msg : Type 0 where
  saved : ParsedSavedTransactionMsg → Msg
  onchain : ParsedOnchainTransactionMsg → Msg
  last : LastTransactionMsg → Msg

pub record Update : Type 0 where
  pub wallet_id : ℤ
  pub transactions : List OnchainTransaction
  pub signatures_ids : List ℤ
  pub associated_accounts : List AssociatedAccount
  pub last_signature : String

-- The wallet id of an update that has taken no message: -1.
abbrev pub no_wallet : ℤ
no_wallet = negsuc 0

abbrev pub empty_update : Update
empty_update = record {
  wallet_id = no_wallet;
  transactions = [];
  signatures_ids = [];
  associated_accounts = [];
  last_signature = "";
}
