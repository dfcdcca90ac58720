-- ===== src/ForceSend/Returns.antt =====
-- How `ForceSendTx` of pkg/test_utils/solana.go comes to its end.
use tax_bro.Prelude.{◌≡◌, true, [], ◌∷◌, ◌++◌, some, String, eq_string}
use tax_bro.ForceSend.{confirmed, values, Client, returned, Sending}

module _ (client : Client)
    (reports : (x : String) → client.get_signature_statuses x ≡ values (some confirmed ∷ [])) where
  abbrev ended_by : Sending → Sending
  ended_by s = record s {
    watcher = returned;
    cancelled = true;
    reported = s.reported ++ (s.signature, confirmed) ∷ [];
  }
