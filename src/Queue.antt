-- ===== src/Queue.antt =====
-- `msgQueue` of pkg/wallet_sync/wallet_sync.go. The mutex makes each operation one atomic step, so
-- an operation is a function on the items; Process/Schedule has their interleavings.
pub mod Walk
use tax_bro.Prelude.{
  ℕ, zero, suc, ◌+◌, Bool, true, false, List, [], ◌∷◌, ◌++◌, Option, none, some, length, get_elem?,
  take, drop, leb, Outcome, ok, fault, out_of_range, out_of_fuel, if◌then◌else◌,
}

pub record MsgQueue {ℓ} (A : Type ℓ) : Type ℓ where
  pub items : List A

unfoldable pub new_msg_queue {ℓ} : {A : Type ℓ} → MsgQueue A
new_msg_queue = record { items = [] }

unfoldable pub append {ℓ} : {A : Type ℓ} → MsgQueue A → A → MsgQueue A
append q item = record { items = q.items ++ item ∷ [] }

unfoldable pub append_messages {ℓ} : {A : Type ℓ} → MsgQueue A → List A → MsgQueue A
append_messages q items = record { items = q.items ++ items }

-- The two callbacks of `walk` share the variables that they capture: the state `S`.
module _ {ℓ} {A S : Type ℓ} (f : A → S → Bool × S) (exit_early : S → Bool) where
  -- The `for` loop, with the index `i`: `fuel` bounds its rounds. An item that is to be deleted is
  -- cut out of the slice, and the index stays.
  unfoldable pub walk_loop : ℕ → ℕ → List A → S → Outcome (List A × S)
  walk_loop zero i items s = fault out_of_fuel
  walk_loop (suc fuel) i items s =
      if leb (length items) i
      then ok (items, s)
      else if exit_early s
      then ok (items, s)
      else elim (get_elem? items i) [
        | none ↦ fault out_of_range
        | some item ↦
            let (should_delete, s') = f item s in
            elim should_delete [
              | true ↦ walk_loop fuel i (take i items ++ drop (suc i) items) s'
              | false ↦ walk_loop fuel (i + 1) items s'
            ]
      ]

  -- A round looks at one item more, so one round more than there are items is enough.
  unfoldable pub walk : MsgQueue A → S → Outcome (MsgQueue A × S)
  unfolding walk_loop
  walk q s = elim (walk_loop (suc (length q.items)) 0 q.items s) [
    | ok (items, s') ↦ ok (record { items = items }, s')
    | fault e ↦ fault e
  ]
