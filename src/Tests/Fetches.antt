-- ===== src/Tests/Fetches.antt =====
-- pkg/wallet_sync/rpc.go at the samples.
use tax_bro.Prelude.{
  ℕ, zero, suc, ◌<◌, ◌≡◌, refl, Fallible, value, error, ok, fault, out_of_fuel, out_of_range, arith,
  false, ◌⊎◌, eq_string,
}
use tax_bro.Prelude.Int.{pos}
use tax_bro.Text.{Bytes, codes}
use tax_bro.Rpc.{
  OnchainTransaction, OnchainInstructionBase, truncate, set_from_compiled, CompiledInstruction,
}
use tax_bro.Rpc.Logs.{parse_log_message, IsReadable, is_readable, parse_log_message_lem}
use tax_bro.Rpc.Retry.{
  call_rpc_with_retries, call_rpc_with_retries-success, call_rpc_with_retries-fails,
}
use tax_bro.Rpc.Fetch.{fetch_transaction}
use tax_bro.Rpc.Fetch.Closed.{IsClosed, fetch_transaction-IsClosed}
use tax_bro.Rpc.Fetch.Total.{IsWellFormed, fetch_transaction-total}
use tax_bro.Tests.Samples.{message, meta, answer, get_transaction, transaction, fetched}

fails_before : (j : ℕ) → j < 1 → get_transaction "sig" j ≡ error
fails_before zero h = refl
fails_before (suc j) h = absurd (omega arith)

fetch_transaction-IsClosed_example : IsClosed transaction × (transaction.signature ≡ "sig")
fetch_transaction-IsClosed_example = fetch_transaction-IsClosed get_transaction 9 "sig" fetched

well_formed : IsWellFormed message meta
unfolding tax_bro.Rpc.decompile_accounts
well_formed = record {
  outer = ((omega arith, (omega arith, (omega arith, tt))), tt);
  inner = (record { owner = omega arith; indices = ((omega arith, (omega arith, tt)), tt) }, tt);
  logs = (refl, (refl, (refl, tt)));
}

fetch_transaction-total_example :
    (tx : OnchainTransaction) × (fetch_transaction get_transaction 9 "sig" ≡ ok tx)
fetch_transaction-total_example =
    fetch_transaction-total get_transaction 1 9 "sig" answer message meta 1700000123 (omega arith)
      fails_before refl refl refl refl well_formed

call_rpc_with_retries-success_example :
    call_rpc_with_retries (get_transaction "sig") (pos 5) 9 ≡ ok (value answer)
call_rpc_with_retries-success_example =
    call_rpc_with_retries-success (get_transaction "sig") 5 1 9 answer (omega arith) (omega arith)
      fails_before refl

abbrev never : ℕ → Fallible ℕ
never j = error

call_rpc_with_retries-fails_example : call_rpc_with_retries never (pos 5) 1000 ≡ fault out_of_fuel
call_rpc_with_retries-fails_example =
    call_rpc_with_retries-fails never (pos 5) 1000 (omega arith) (λ j. refl)

parse_log_message_lem_example :
    (IsReadable (codes "Program log:")
      × ((log : Bytes) × (parse_log_message (codes "Program log:") ≡ ok log)))
    ⊎ ((is_readable (codes "Program log:") ≡ false)
        × (parse_log_message (codes "Program log:") ≡ fault out_of_range))
parse_log_message_lem_example = parse_log_message_lem (codes "Program log:")
