-- ===== src/Tests/Saves.antt =====
-- The saving half of pkg/wallet_sync/wallet_sync.go, over the database in memory.
use tax_bro.Prelude.{
  ◌≡◌, refl, true, List, [], ◌∷◌, String, map, flat_map, contains, eq_string, ok, fault, assertion,
  arith, if◌then◌else◌, ◌==◌, ◌+◌,
}
use tax_bro.Text.{codes}
use tax_bro.Db.Transactions.{InstructionBase, stored_parsable}
use tax_bro.Update.Prepare.Payload.{get_data-bytea}
use tax_bro.Prelude.Int.{pos, eq_int}
use tax_bro.Db.{Signature, Account}
use tax_bro.Update.Prepare.{prepare_insertable_components}
use tax_bro.Update.Prepare.Rows.{instruction_rows, all_inner_rows}
use tax_bro.Update.Prepare.Components.{
  sid_of, transaction_row, IsSaved, prepare_insertable_components-rows,
}
use tax_bro.Update.Save.{save_transactions}
use tax_bro.Update.Save.Rows.{save_described, save_transactions-described}
use tax_bro.Update.User.{update_user}
use tax_bro.Update.User.Counts.{IsBalanced}
use tax_bro.Update.User.Counter.{update_user-IsBalanced}
use tax_bro.Rpc.Fetch.Closed.{IsClosed, fetch_transaction-IsClosed}
use tax_bro.Tests.Memory.{Rows, memory, memory-IsLawful, memory-IsCounting, counts, empty_rows}
use tax_bro.Tests.Samples.{transaction, update, get_transaction, fetched}

abbrev in_order : List String → List String
in_order keys = keys

visits_all :
    (keys : List String) (v : String) → contains keys v ≡ true → contains (in_order keys) v ≡ true
visits_all keys v h = h

closed : IsClosed transaction
closed = (fetch_transaction-IsClosed get_transaction 9 "sig" fetched).0

save_transactions-described_example :
    save_transactions memory in_order update empty_rows
    ≡ save_described memory in_order update empty_rows
save_transactions-described_example =
    save_transactions-described memory memory-IsLawful in_order visits_all update empty_rows
      (closed, tt)

abbrev updated_rows : Rows
updated_rows = record {
  links = λ w. if w == pos 1 then 0 + 1 else 0;
  counter = λ w. if w == pos 1 then 0 + 1 else 0;
  account_links = λ w. if w == pos 1 then 0 + 1 else 0;
  account_counter = λ w. if w == pos 1 then 0 + 1 else 0;
}

updated : update_user memory update empty_rows ≡ ok updated_rows
unfolding update_user tax_bro.Update.User.link_signatures tax_bro.Update.User.set_last_signature
    tax_bro.Update.User.link_accounts
updated = refl

update_user-IsBalanced_example : IsBalanced memory counts updated_rows
update_user-IsBalanced_example =
    update_user-IsBalanced memory counts memory-IsCounting update empty_rows updated_rows
      (omega arith) (omega arith) updated (λ v. (refl, refl))

abbrev signatures : List Signature
signatures = record { id = pos 1; val = "sig" } ∷ []

abbrev accounts : List Account
accounts =
    record { id = pos 1; address = "payer"; ord = pos 0 }
    ∷ record { id = pos 2; address = "token"; ord = pos 0 }
    ∷ record { id = pos 3; address = "pool"; ord = pos 0 }
    ∷ []

is_saved : IsSaved signatures accounts transaction
is_saved = record { signature = refl; addresses = (refl, (refl, (refl, tt))); closed = closed }

prepare_insertable_components-rows_example :
    prepare_insertable_components (transaction ∷ []) signatures accounts
    ≡ ok (record {
      txs = map (transaction_row signatures accounts) (transaction ∷ []);
      ixs =
          flat_map
            (λ tx. instruction_rows accounts (sid_of signatures accounts tx) 0 tx.ixs)
            (transaction ∷ []);
      inner_ixs =
          flat_map
            (λ tx. all_inner_rows accounts (sid_of signatures accounts tx) 0 tx.ixs)
            (transaction ∷ []);
    })
prepare_insertable_components-rows_example =
    prepare_insertable_components-rows signatures accounts (transaction ∷ []) (is_saved, tt)

abbrev read_bytea : InstructionBase
read_bytea = record { program_address = "token"; accounts = []; payload = codes "\\x01ff" }

get_data-bytea_example : (stored_parsable read_bytea).get_data ≡ fault assertion
get_data-bytea_example = get_data-bytea read_bytea (codes "01ff") refl
