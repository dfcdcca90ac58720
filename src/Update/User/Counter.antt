-- ===== src/Update/User/Counter.antt =====
-- `updateUser` of pkg/wallet_sync/wallet_sync.go keeps the wallet's two counters.
use tax_bro.Prelude.{
  ℕ, ◌<◌, ◌^◌, ◌≡◌, refl, Bool-cases, inl, inr, List, map, ltb, ◌==◌, eq_string, if◌then◌else◌,
  length, length-map, replicate, value, ok, ok-injective, must, must-eq-ok, >>=-eq-ok, arith,
}
use tax_bro.Prelude.Int.{ℤ, pos, eq_int}
use tax_bro.Parser.{AssociatedAccount}
use tax_bro.Db.{Store, Account}
use tax_bro.Update.{Update}
use tax_bro.Update.User.Counts.{Counts, IsCounting, IsBalanced, SameCounts-IsBalanced}
use tax_bro.Update.User.{to_int32, link_signatures, set_last_signature, link_accounts, update_user}

to_int32-small : (n : ℕ) → n < 2 ^ 31 → to_int32 n ≡ pos n
unfolding to_int32
to_int32-small n h = ground arith

module _ (db : Store) (c : Counts db) (law : IsCounting db c) (u : Update) where
  -- The count of new links is added to the counter, if there are any.
  linked_then_added :
      (n : ℕ) (st st₁ st₂ : db.State)
      → length u.signatures_ids < 2 ^ 31
      → db.link_signatures u.signatures_ids (replicate (length u.signatures_ids) u.wallet_id) st
        ≡ value (n, st₁)
      → (if ltb 0 n then must (db.add_signatures (to_int32 n) u.wallet_id st₁) else ok st₁) ≡ ok st₂
      → IsBalanced db c st
      → IsBalanced db c st₂
  linked_then_added n st st₁ st₂ few linked added b v =
      let (at_most, links, counter, accounts, account_counter) =
        law.signatures_linked u.signatures_ids u.wallet_id st st₁ n linked in
      let small = to_int32-small n (omega arith) in
      elim (Bool-cases (ltb 0 n)) [
        | inl some_new ↦
            let kept = rw (some_new, small) at added in
            let (counter', links', accounts', account_counter') =
              law.signatures_added n u.wallet_id st₁ st₂ (must-eq-ok _ kept) in
            rw
              (
                counter' v,
                links' v,
                accounts' v,
                account_counter' v,
                counter v,
                links v,
                accounts v,
                account_counter v,
              )
              (rw (b v).0 refl, (b v).1)
        | inr none_new ↦
            let same : st₁ ≡ st₂ = ok-injective (rw none_new at added) in
            rw (← same, counter v, links v, accounts v, account_counter v)
              (ground (arith, (b v).0), (b v).1)
      ]

  accounts_linked_then_added :
      (n : ℕ) (ids : List ℤ) (st st₁ st₂ : db.State)
      → length ids < 2 ^ 31
      → db.link_accounts ids (replicate (length ids) u.wallet_id) st ≡ value (n, st₁)
      → (if ltb 0 n then must (db.add_accounts (to_int32 n) u.wallet_id st₁) else ok st₁) ≡ ok st₂
      → IsBalanced db c st
      → IsBalanced db c st₂
  accounts_linked_then_added n ids st st₁ st₂ few linked added b v =
      let (at_most, account_links, links, counter, account_counter) =
        law.accounts_linked ids u.wallet_id st st₁ n linked in
      let small = to_int32-small n (omega arith) in
      elim (Bool-cases (ltb 0 n)) [
        | inl some_new ↦
            let kept = rw (some_new, small) at added in
            let (account_counter', links', counter', account_links') =
              law.accounts_added n u.wallet_id st₁ st₂ (must-eq-ok _ kept) in
            rw
              (
                counter' v,
                links' v,
                account_links' v,
                account_counter' v,
                counter v,
                links v,
                account_links v,
                account_counter v,
              )
              ((b v).0, rw (b v).1 refl)
        | inr none_new ↦
            let same : st₁ ≡ st₂ = ok-injective (rw none_new at added) in
            rw (← same, counter v, links v, account_links v, account_counter v)
              ((b v).0, ground (arith, (b v).1))
      ]

  pub link_signatures-IsBalanced :
      (st st' : db.State)
      → length u.signatures_ids < 2 ^ 31
      → link_signatures db u st ≡ ok st'
      → IsBalanced db c st
      → IsBalanced db c st'
  unfolding link_signatures
  link_signatures-IsBalanced st st' few h b = elim (Bool-cases (ltb 0 (length u.signatures_ids))) [
    | inr no_ids ↦ rw (← ok-injective (rw no_ids at h)) b
    | inl some_ids ↦
        let (st₀, begun, h₁) = >>=-eq-ok (must (db.begin st)) _ (rw some_ids at h) in
        let ((n, st₁), linked, h₂) =
          >>=-eq-ok
            (must (
              db.link_signatures u.signatures_ids (replicate (length u.signatures_ids) u.wallet_id)
                st₀))
            _ h₁ in
        let (st₂, added, committed) =
          >>=-eq-ok
            (if ltb 0 n then must (db.add_signatures (to_int32 n) u.wallet_id st₁) else ok st₁) _
            h₂ in
        SameCounts-IsBalanced db c (law.commit_same st₂ st' (must-eq-ok _ committed)) (
          linked_then_added n st₀ st₁ st₂ few (must-eq-ok _ linked) added
            (SameCounts-IsBalanced db c (law.begin_same st st₀ (must-eq-ok _ begun)) b))
  ]

  pub link_accounts-IsBalanced :
      (st st' : db.State)
      → length u.associated_accounts < 2 ^ 31
      → link_accounts db u st ≡ ok st'
      → IsBalanced db c st
      → IsBalanced db c st'
  unfolding link_accounts
  link_accounts-IsBalanced st st' few h b =
      elim (Bool-cases (ltb 0 (length u.associated_accounts))) [
        | inr no_accounts ↦ rw (← ok-injective (rw no_accounts at h)) b
        | inl some_accounts ↦
            let (st₀, begun, h₁) = >>=-eq-ok (must (db.begin st)) _ (rw some_accounts at h) in
            let vs = map (λ (a : AssociatedAccount). a.address) u.associated_accounts in
            let accounts = db.select_unlinked vs st₀ in
            let ids = map (λ (a : Account). a.id) accounts in
            let count : length ids ≡ length accounts = length-map (λ a. a.id) accounts in
            let ((n, st₁), linked, h₂) =
              >>=-eq-ok (must (db.link_accounts ids (replicate (length accounts) u.wallet_id) st₀))
                _ h₁ in
            let (st₂, added, committed) =
              >>=-eq-ok
                (if ltb 0 n then must (db.add_accounts (to_int32 n) u.wallet_id st₁) else ok st₁) _
                h₂ in
            let few_ids : length ids < 2 ^ 31 = omega (
              arith,
              law.unlinked_few vs st₀,
              length-map (λ (a : AssociatedAccount). a.address) u.associated_accounts,
            ) in
            SameCounts-IsBalanced db c (law.commit_same st₂ st' (must-eq-ok _ committed)) (
              accounts_linked_then_added n ids st₀ st₁ st₂ few_ids
                (rw (← count) at (must-eq-ok _ linked)) added
                (SameCounts-IsBalanced db c (law.begin_same st st₀ (must-eq-ok _ begun)) b))
      ]

  pub set_last_signature-IsBalanced :
      (st st' : db.State)
      → set_last_signature db u st ≡ ok st'
      → IsBalanced db c st
      → IsBalanced db c st'
  unfolding set_last_signature
  set_last_signature-IsBalanced st st' h b = elim (Bool-cases (u.last_signature == "")) [
    | inl nothing ↦ rw (← ok-injective (rw nothing at h)) b
    | inr something ↦
        SameCounts-IsBalanced db c
          (law.last_same u.last_signature u.wallet_id st st' (must-eq-ok _ (rw something at h))) b
  ]

  -- If each wallet's counters are the numbers of its rows, they still are after an update: for the
  -- updated wallet and for every other.
  pub update_user-IsBalanced :
      (st st' : db.State)
      → length u.signatures_ids < 2 ^ 31
      → length u.associated_accounts < 2 ^ 31
      → update_user db u st ≡ ok st'
      → IsBalanced db c st
      → IsBalanced db c st'
  unfolding update_user
  update_user-IsBalanced st st' few_ids few_accounts h b =
      let (st₁, linked, h₁) = >>=-eq-ok (link_signatures db u st) _ h in
      let (st₂, last_set, h₂) = >>=-eq-ok (set_last_signature db u st₁) _ h₁ in
      link_accounts-IsBalanced st₂ st' few_accounts h₂ (
        set_last_signature-IsBalanced st₁ st₂ last_set
          (link_signatures-IsBalanced st st₁ few_ids linked b))
