-- ===== src/Tests/Pages.antt =====
-- `fetchAndParse` of pkg/wallet_sync/wallet_sync.go with one stored and one new signature.
use tax_bro.Prelude.{
  All, ◌≢◌, ◌≡◌, refl, false, List, [], ◌∷◌, ◌++◌, none, String, replicate, value, ok, fault,
  out_of_fuel, arith,
}
use tax_bro.Prelude.Int.{pos}
use tax_bro.Rpc.{OnchainTransaction}
use tax_bro.Rpc.Fetch.{fetch_transaction}
use tax_bro.Db.Transactions.{Transaction, is_stored}
use tax_bro.Update.{last}
use tax_bro.Sync.{
  Append, one, many, Services, saved_message, saved_messages, onchain_message, fetch_page,
  fetch_and_parse,
}
use tax_bro.Sync.Store.{SyncWalletRequest}
use tax_bro.Sync.Dedup.{Row, SlotData, group_slots, group_slots_lem}
use tax_bro.Sync.Page.{Fetches, fetched_calls, fetch_and_parse-short, fetch_and_parse-endless}
use tax_bro.Tests.Samples.{get_transaction, transaction}

abbrev pub request : SyncWalletRequest
request = record { wallet_id = pos 1; wallet_address = "wallet"; last_signature = none }

abbrev pub stored : List Transaction
stored = record { signature = "old"; signature_id = pos 8; ixs = []; logs = [] } ∷ []

abbrev answering : List String → Services
answering signatures = record {
  public_key = λ text. value text;
  parse_signature = λ text. value text;
  get_signatures = λ account opts page attempt. value signatures;
  get_transaction = get_transaction;
  query_at = λ page texts.
      value (record { signature = "old"; signature_id = pos 8; ixs = value []; logs = [] } ∷ []);
  system_program_id = "system";
}

abbrev pub services : Services
services = answering ("sig" ∷ "old" ∷ [])

abbrev pub fetched_as : String → OnchainTransaction
fetched_as signature = record transaction { signature = signature }

fetches :
    (v : String)
    → is_stored stored v ≡ false
    → fetch_transaction get_transaction 9 v ≡ ok (fetched_as v)
unfolding fetch_transaction tax_bro.Rpc.Retry.call_rpc_with_retries tax_bro.Rpc.Fetch.assemble
    tax_bro.Rpc.Fetch.compile_all tax_bro.Rpc.set_from_compiled tax_bro.Rpc.resolve_accounts
    tax_bro.Rpc.decompile_accounts tax_bro.Rpc.Fetch.attach_inner tax_bro.Rpc.Fetch.set_inner
    tax_bro.Rpc.Logs.parse_logs tax_bro.Text.Split.split tax_bro.Rpc.truncate
    tax_bro.Text.Base64.decode_string tax_bro.Text.Hex.encode_to_string
fetches v h = refl

pub fetched : All (Fetches services request 9 fetched_as stored) ("sig" ∷ "old" ∷ [])
fetched = (fetches "sig", (fetches "old", tt))

abbrev calls : List Append
calls =
    saved_messages services request stored
    ++ fetched_calls services request 9 fetched_as stored ("sig" ∷ "old" ∷ [])
    ++ one (last (record { wallet_id = pos 1; signature = "sig" })) ∷ []

fetch_and_parse-short_example : fetch_and_parse services request 9 3 ≡ ok calls
unfolding tax_bro.Rpc.Retry.call_rpc_with_retries tax_bro.Db.Transactions.get_transactions
    tax_bro.Db.Transactions.add_results
fetch_and_parse-short_example =
    fetch_and_parse-short services request 9 "wallet" none refl refl 2 "sig" ("old" ∷ []) stored
      fetched_as refl (omega arith) refl fetched

parsed : fetch_and_parse services request 9 3 ≡ ok calls
unfolding fetch_and_parse tax_bro.Sync.fetch_pages tax_bro.Rpc.Retry.call_rpc_with_retries
    fetch_page tax_bro.Db.Transactions.get_transactions tax_bro.Db.Transactions.add_results
    tax_bro.Sync.fetch_unsaved is_stored fetch_transaction tax_bro.Rpc.Fetch.assemble
    tax_bro.Rpc.Fetch.compile_all tax_bro.Rpc.set_from_compiled tax_bro.Rpc.resolve_accounts
    tax_bro.Rpc.decompile_accounts tax_bro.Rpc.Fetch.attach_inner tax_bro.Rpc.Fetch.set_inner
    tax_bro.Rpc.Logs.parse_logs tax_bro.Text.Split.split tax_bro.Rpc.truncate
    tax_bro.Text.Base64.decode_string tax_bro.Text.Hex.encode_to_string
parsed = refl

abbrev full_page : List String
full_page = replicate 100 "old"

abbrev always_full : Services
always_full = answering full_page

fetch_and_parse-endless_example : fetch_and_parse always_full request 9 1000 ≡ fault out_of_fuel
unfolding tax_bro.Rpc.Retry.call_rpc_with_retries fetch_page
    tax_bro.Db.Transactions.get_transactions tax_bro.Db.Transactions.add_results
    tax_bro.Sync.fetch_unsaved is_stored
fetch_and_parse-endless_example =
    fetch_and_parse-endless always_full request 9 "wallet" none refl refl (λ page. full_page)
      (λ page. saved_messages always_full request stored) (λ page. refl) (λ page. omega arith)
      (λ page. refl) 1000

abbrev rows : List Row
rows = record { slot = pos 7; signature = "sig" } ∷ record { slot = pos 8; signature = "old" } ∷ []

abbrev slots : List SlotData
slots = record { slot = pos 7; signatures = "sig" ∷ [] } ∷ []

group_slots_lem_example : group_slots 9 rows slots 1 ≢ ok slots
group_slots_lem_example = group_slots_lem 9 rows slots slots 1 (omega arith)
