-- ===== src/Process.antt =====
-- `processMessages` of pkg/wallet_sync/wallet_sync.go: one pass over the queue gathers an update of
-- one wallet.
pub mod Batch
pub mod Drain
pub mod Gathered
pub mod Results
pub mod Schedule
use tax_bro.Prelude.{
  Bool, true, false, ◌||◌, List, ◌++◌, ◌∷◌, [], length, ltb, ◌==◌, Outcome, if◌then◌else◌,
}
use tax_bro.Prelude.Int.{ℤ, eq_int}
use tax_bro.Queue.{MsgQueue, walk}
use tax_bro.Update.{Msg, saved, onchain, last, Update, no_wallet, empty_update}

-- The first callback: whether the message is taken off the queue, and the update after it.
unfoldable pub visit : Msg → Update → Bool × Update
visit (onchain msg) u =
    if u.wallet_id == msg.wallet_id || u.wallet_id == no_wallet
    then (
      true,
      record u {
        wallet_id = msg.wallet_id;
        transactions = u.transactions ++ msg.transaction ∷ [];
        associated_accounts = u.associated_accounts ++ msg.accounts;
      },
    )
    else (false, u)
visit (saved msg) u =
    if u.wallet_id == msg.wallet_id || u.wallet_id == no_wallet
    then (
      true,
      record u {
        wallet_id = msg.wallet_id;
        signatures_ids = u.signatures_ids ++ msg.signature_id ∷ [];
        associated_accounts = u.associated_accounts ++ msg.accounts;
      },
    )
    else (false, u)
visit (last msg) u =
    if u.wallet_id == msg.wallet_id || u.wallet_id == no_wallet
    then (true, record u { wallet_id = msg.wallet_id; last_signature = msg.signature })
    else (false, u)

-- The second callback.
unfoldable pub is_full : Update → Bool
is_full u =
    ltb 20 (length u.signatures_ids)
    || ltb 20 (length u.transactions)
    || ltb 40 (length u.associated_accounts)

unfoldable pub process_messages : MsgQueue Msg → Outcome (MsgQueue Msg × Update)
unfolding walk visit is_full
process_messages queue = walk visit is_full queue empty_update
