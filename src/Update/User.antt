-- ===== src/Update/User.antt =====
-- `updateUser` of pkg/wallet_sync/wallet_sync.go.
pub mod Counter
pub mod Counts
use tax_bro.Prelude.{
  ℕ, ◌+◌, ◌-◌, ◌%◌, ◌^◌, Bool, List, [], ◌∷◌, map, String, ltb, ◌==◌, eq_string, if◌then◌else◌,
  length, replicate, Outcome, ok, must, ◌>>=◌,
}
use tax_bro.Prelude.Int.{ℤ, pos, negsuc}
use tax_bro.Parser.{AssociatedAccount}
use tax_bro.Db.{Store}
use tax_bro.Update.{Update}

-- `int32(count)` of a row count.
unfoldable pub to_int32 : ℕ → ℤ
to_int32 n = let r = n % 2 ^ 32 in if ltb r (2 ^ 31) then pos r else negsuc (2 ^ 32 - 1 - r)

module _ (db : Store) (u : Update) where
  -- The links from the wallet to its signatures, and their count.
  unfoldable pub link_signatures : db.State → Outcome db.State
  unfolding to_int32
  link_signatures st =
      if ltb 0 (length u.signatures_ids)
      then (do
        st₀ ← must (db.begin st)
        let wallets_ids = replicate (length u.signatures_ids) u.wallet_id
        (count, st₁) ← must (db.link_signatures u.signatures_ids wallets_ids st₀)
        st₂ ←
            (if ltb 0 count
              then must (db.add_signatures (to_int32 count) u.wallet_id st₁)
              else ok st₁)
        must (db.commit st₂))
      else ok st

  unfoldable pub set_last_signature : db.State → Outcome db.State
  set_last_signature st =
      if u.last_signature == ""
      then ok st
      else must (db.set_last_signature u.last_signature u.wallet_id st)

  -- An error of the select is not looked at: it leaves no rows.
  unfoldable pub link_accounts : db.State → Outcome db.State
  unfolding to_int32
  link_accounts st =
      if ltb 0 (length u.associated_accounts)
      then (do
        st₀ ← must (db.begin st)
        let accounts = db.select_unlinked (map (λ a. a.address) u.associated_accounts) st₀
        let wallets_ids = replicate (length accounts) u.wallet_id
        (count, st₁) ← must (db.link_accounts (map (λ a. a.id) accounts) wallets_ids st₀)
        st₂ ←
            (if ltb 0 count
              then must (db.add_accounts (to_int32 count) u.wallet_id st₁)
              else ok st₁)
        must (db.commit st₂))
      else ok st

  unfoldable pub update_user : db.State → Outcome db.State
  update_user st = do st₁ ← link_signatures st; st₂ ← set_last_signature st₁; link_accounts st₂
