-- ===== src/Queue/Walk.antt =====
-- What `walk` of pkg/wallet_sync/wallet_sync.go computes, with the index and the cuts gone.
use mathlib.Core.List.{Perm, perm_middle}
use mathlib.Core.List.Perm
use tax_bro.Prelude.{
  ℕ, zero, suc, ◌+◌, ◌<◌, ◌≡◌, refl, Bool, true, false, List, [], ◌∷◌, ◌++◌, length, length-append,
  get_elem?, get_elem?-append, take-append, drop-append, some, take, drop, append-nil, append_assoc,
  Bool-cases, inl, inr, ok, if◌then◌else◌, arith,
}
use tax_bro.Queue.{MsgQueue, walk_loop, walk}

-- One pass over the items: what is kept, what is taken, and the state after it.
pub record Pass {ℓ} (A S : Type ℓ) : Type ℓ where
  pub kept : List A
  pub taken : List A
  pub state : S

module _ {ℓ} {A S : Type ℓ} (f : A → S → Bool × S) (exit_early : S → Bool) where
  unfoldable pub sweep : List A → S → Pass A S
  sweep [] s = record { kept = []; taken = []; state = s }
  sweep (x ∷ xs) s =
      let (should_delete, s') = f x s in
      let rest = sweep xs s' in
      if exit_early s
      then record { kept = x ∷ xs; taken = []; state = s }
      else if should_delete
      then record rest { taken = x ∷ rest.taken }
      else record rest { kept = x ∷ rest.kept }

  -- The four ways in which a pass goes on, as a rule for proofs about it.
  pub sweep_induction {κ} :
      (P : List A → S → Pass A S → Type κ)
      → ((s : S) → P [] s (record { kept = []; taken = []; state = s }))
      → ((x : A) (xs : List A) (s : S)
          → exit_early s ≡ true
          → P (x ∷ xs) s (record { kept = x ∷ xs; taken = []; state = s }))
      → ((x : A) (xs : List A) (s s' : S) (rest : Pass A S)
          → exit_early s ≡ false
          → f x s ≡ (true, s')
          → P xs s' rest
          → P (x ∷ xs) s (record rest { taken = x ∷ rest.taken }))
      → ((x : A) (xs : List A) (s s' : S) (rest : Pass A S)
          → exit_early s ≡ false
          → f x s ≡ (false, s')
          → P xs s' rest
          → P (x ∷ xs) s (record rest { kept = x ∷ rest.kept }))
      → (xs : List A) (s : S) → P xs s (sweep xs s)
  unfolding sweep
  sweep_induction P at_end full taken left [] s = at_end s
  sweep_induction P at_end full taken left (x ∷ xs) s =
      let rest = sweep_induction P at_end full taken left xs (f x s).1 in
      elim (Bool-cases (exit_early s)) [
        | inl stop ↦ rw stop (full x xs s stop)
        | inr go ↦ elim (Bool-cases (f x s).0) [
          | inl yes_delete ↦
              rw (go, yes_delete)
                (taken x xs s (f x s).1 _ go (λ i. (yes_delete i, (f x s).1)) rest)
          | inr no_delete ↦
              rw (go, no_delete) (left x xs s (f x s).1 _ go (λ i. (no_delete i, (f x s).1)) rest)
        ]
      ]

  walk_loop-sweep :
      (fuel : ℕ) (front xs : List A) (s : S) (i : ℕ)
      → i ≡ length front
      → length xs < fuel
      → walk_loop f exit_early fuel i (front ++ xs) s
        ≡ ok (front ++ (sweep xs s).kept, (sweep xs s).state)
  unfolding walk_loop sweep
  walk_loop-sweep zero front xs s i e h = absurd (omega arith)
  walk_loop-sweep (suc fuel) front [] s i e h = rw append-nil (ground arith)
  walk_loop-sweep (suc fuel) front (x ∷ xs) s i e h =
      let found : get_elem? (front ++ x ∷ xs) i ≡ some x = rw e (get_elem?-append front x xs) in
      let cut : take i (front ++ x ∷ xs) ++ drop (suc i) (front ++ x ∷ xs) ≡ front ++ xs =
        rw (e, take-append front (x ∷ xs), drop-append front x xs) in
      let past : i + 1 ≡ length (front ++ x ∷ []) = omega (arith, length-append front (x ∷ [])) in
      let regroup : (front ++ x ∷ []) ++ xs ≡ front ++ x ∷ xs = append_assoc front (x ∷ []) xs in
      let s' = (f x s).1 in
      ground (
        arith,
        length-append front (x ∷ xs),
        found,
        rw (← cut) at (walk_loop-sweep fuel front xs s' i e),
        rw regroup at (walk_loop-sweep fuel (front ++ x ∷ []) xs s' (i + 1) past),
        append_assoc front (x ∷ []) (sweep xs s').kept,
      )

  -- The indexed loop over the slice that it cuts returns, within the rounds it is given, what one
  -- pass over the list does: it asks for an early exit before each item, visits each item once in
  -- order, and drops exactly the items for which the callback asks.
  pub walk-sweep :
      (q : MsgQueue A) (s : S)
      → walk f exit_early q s
        ≡ ok (record { items = (sweep q.items s).kept }, (sweep q.items s).state)
  unfolding walk
  walk-sweep q s =
      rw (walk_loop-sweep (suc (length q.items)) [] q.items s 0 refl (omega arith), walk)

  -- Nothing is lost and nothing doubled: what is taken and what is kept make up the items.
  pub sweep-perm : (xs : List A) (s : S) → Perm ((sweep xs s).taken ++ (sweep xs s).kept) xs
  sweep-perm =
      sweep_induction (λ xs s r. Perm (r.taken ++ r.kept) xs) (λ s. Perm.refl [])
        (λ x xs s stop. Perm.refl (x ∷ xs)) (λ x xs s s' rest go e ih. Perm.cons x ih)
        (λ x xs s s' rest go e ih. Perm.trans (perm_middle rest.taken rest.kept) (Perm.cons x ih))
