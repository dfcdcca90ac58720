-- ===== src/Update/Prepare/Payload.antt =====
-- `GetData` of pkg/wallet_sync/db.go.
use tax_bro.Prelude.{◌≡◌, refl, ◌∷◌, fault, assertion}
use tax_bro.Text.{Bytes}
use tax_bro.Text.Hex.{decode_string}
use tax_bro.Db.Transactions.{InstructionBase, stored_parsable}

-- The text of a `bytea` in JSON begins with `\x`: with such a text the process ends.
pub get_data-bytea :
    (ix : InstructionBase) (text : Bytes)
    → ix.payload ≡ 92 ∷ 120 ∷ text
    → (stored_parsable ix).get_data ≡ fault assertion
unfolding stored_parsable decode_string
get_data-bytea ix text read = rw (read) refl
