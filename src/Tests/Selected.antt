-- ===== src/Tests/Selected.antt =====
-- pkg/wallet_sync/db.go: the accounts of an instruction, read from a table in another order.
use tax_bro.Prelude.{◌≡◌, refl, List, [], ◌∷◌, map, value}
use tax_bro.Prelude.Int.{pos}
use tax_bro.Text.{codes}
use tax_bro.Rpc.{OnchainInstructionBase}
use tax_bro.Db.{Account, account_id}
use tax_bro.Db.Order.{swapped}
use tax_bro.Db.Selected.{Address, selected_accounts}
use tax_bro.Update.Prepare.{PreparedInstruction, prepare_for_insert}
use tax_bro.Update.Prepare.Selected.{selected_accounts-prepare_for_insert}

abbrev instruction : OnchainInstructionBase
instruction = record {
  program_address = "program";
  accounts = "pool" ∷ "token" ∷ [];
  payload = 1 ∷ 255 ∷ [];
}

abbrev inserted : List Account
inserted =
    record { id = pos 1; address = "program"; ord = pos 0 }
    ∷ record { id = pos 2; address = "token"; ord = pos 0 }
    ∷ record { id = pos 3; address = "pool"; ord = pos 0 }
    ∷ []

abbrev prepared : PreparedInstruction
prepared = record {
  program_account_id = pos 1;
  accounts_ids = pos 3 ∷ pos 2 ∷ [];
  payload = codes "01ff";
}

prepares : prepare_for_insert instruction inserted ≡ value prepared
unfolding prepare_for_insert tax_bro.Update.Prepare.accounts_ids account_id
    tax_bro.Text.Hex.encode_to_string
prepares = refl

abbrev addresses : List Address
addresses =
    record { id = pos 1; value = "program" }
    ∷ record { id = pos 2; value = "token" }
    ∷ record { id = pos 3; value = "pool" }
    ∷ []

selected_accounts-prepare_for_insert_example :
    map (λ (a : Account). a.address) (selected_accounts addresses (pos 3 ∷ pos 2 ∷ []))
    ≡ "pool" ∷ "token" ∷ []
selected_accounts-prepare_for_insert_example =
    selected_accounts-prepare_for_insert instruction inserted addresses prepares
      ((refl, tt), (tt, tt)) swapped

-- An account that an instruction uses twice comes once.
selected_once :
    map (λ (a : Account). a.address) (selected_accounts addresses (pos 3 ∷ pos 2 ∷ pos 3 ∷ []))
    ≡ "pool" ∷ "token" ∷ []
unfolding tax_bro.Db.Order.order_by
selected_once = refl
