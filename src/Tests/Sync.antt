-- ===== src/Tests/Sync.antt =====
-- The queue and `processMessages` of pkg/wallet_sync/wallet_sync.go at the samples.
use mathlib.Core.List.{Perm}
use tax_bro.Prelude.{
  All, arith, ℕ, ◌≤◌, ◌≡◌, ◌⊎◌, refl, true, List, [], ◌∷◌, ◌++◌, flat_map, length, ok,
  if◌then◌else◌, select, ◌==◌, ◌≢◌,
}
use tax_bro.Prelude.Int.{ℤ, pos, eq_int}
use tax_bro.Queue.{MsgQueue, walk}
use tax_bro.Queue.Walk.{sweep, walk-sweep}
use tax_bro.Update.{Msg, Update, no_wallet, empty_update}
use tax_bro.Process.{visit, is_full, process_messages}
use tax_bro.Process.Batch.{gathered, start, transactions_of, signatures_ids_of, accounts_of}
use tax_bro.Process.Results.{of_wallet, process_messages-batch, process_messages-bounds}
use tax_bro.Process.Drain.{drain, Delivers, drain_lem}
use tax_bro.Process.Schedule.{
  HasWallet, Run, initial, appends, appends_all, processes, Reach, here, next, IsInOrder,
  Reach-IsInOrder,
}
use tax_bro.Tests.Samples.{saved_msg, onchain_msg, last_msg, update}

abbrev two_wallets : List Msg
two_wallets = onchain_msg (pos 1) ∷ saved_msg (pos 2) ∷ saved_msg (pos 1) ∷ last_msg (pos 1) ∷ []

abbrev after_batch : MsgQueue Msg
after_batch = record { items = saved_msg (pos 2) ∷ [] }

pub process_two : process_messages (record { items = two_wallets }) ≡ ok (after_batch, update)
unfolding process_messages
process_two = refl

has_wallet : (n : ℕ) → pos n ≢ no_wallet
has_wallet n e = cc

abbrev produced : Run
produced = record { queue = record { items = two_wallets }; produced = two_wallets; updates = [] }

abbrev processed : Run
processed = record { queue = after_batch; produced = two_wallets; updates = update ∷ [] }

runs : Reach initial processed
unfolding tax_bro.Queue.append_messages tax_bro.Queue.append tax_bro.Queue.new_msg_queue
runs =
    next
      (next (next here (appends initial (onchain_msg (pos 1)) (has_wallet 1))) (
        appends_all _ (saved_msg (pos 2) ∷ saved_msg (pos 1) ∷ last_msg (pos 1) ∷ [])
          (has_wallet 2, (has_wallet 1, (has_wallet 1, tt)))))
      (processes produced after_batch update process_two)

Reach-IsInOrder_example : IsInOrder processed
Reach-IsInOrder_example = Reach-IsInOrder runs

process_messages-batch_example :
    (taken kept : List Msg) × (process_messages (record { items = two_wallets })
      ≡ ok (record { items = kept }, gathered (start (pos 1)) (onchain_msg (pos 1) ∷ taken)))
    × ((v : ℤ)
        → select (of_wallet v) two_wallets
          ≡ (if v == pos 1 then onchain_msg (pos 1) ∷ taken else []) ++ select (of_wallet v) kept)
    × ((is_full (gathered (start (pos 1)) (onchain_msg (pos 1) ∷ taken)) ≡ true)
        ⊎ (select (of_wallet (pos 1)) kept ≡ []))
process_messages-batch_example =
    process_messages-batch (onchain_msg (pos 1))
      (saved_msg (pos 2) ∷ saved_msg (pos 1) ∷ last_msg (pos 1) ∷ []) (has_wallet 1)

process_messages-bounds_example :
    (q' : MsgQueue Msg) × (u : Update) × (taken : List Msg) × (process_messages
        (record { items = two_wallets })
      ≡ ok (q', u))
    × Perm (taken ++ q'.items) two_wallets
    × (u.transactions ≡ flat_map transactions_of taken)
    × (u.signatures_ids ≡ flat_map signatures_ids_of taken)
    × (u.associated_accounts ≡ flat_map accounts_of taken)
    × (length u.signatures_ids ≤ 21)
    × (length u.transactions ≤ 21)
process_messages-bounds_example = process_messages-bounds (record { items = two_wallets })

walk-sweep_example :
    walk visit is_full (record { items = two_wallets }) empty_update
    ≡ ok (
      record { items = (sweep visit is_full two_wallets empty_update).kept },
      (sweep visit is_full two_wallets empty_update).state,
    )
walk-sweep_example = walk-sweep visit is_full (record { items = two_wallets }) empty_update

two_wallets-HasWallet : All HasWallet two_wallets
two_wallets-HasWallet = (has_wallet 1, (has_wallet 2, (has_wallet 1, (has_wallet 1, tt))))

drain_lem_example :
    (updates : List Update) × (drain 4 (record { items = two_wallets })
      ≡ ok (record { items = [] }, updates))
    × Delivers updates two_wallets
drain_lem_example = drain_lem 4 two_wallets two_wallets-HasWallet (omega arith)
