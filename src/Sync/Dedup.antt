-- ===== src/Sync/Dedup.antt =====
-- `deduplicateTimestamps` of pkg/wallet_sync/wallet_sync.go. The result of its select is put into a
-- slice that is passed by value, so the code behind never has a row; it is modelled for any rows.
use tax_bro.Prelude.{
  ℕ, zero, suc, ◌+◌, ◌≤◌, ◌≡◌, ◌≢◌, true, false, Bool-cases, inl, inr, List, [], ◌∷◌, ◌++◌, String,
  length, ltb, ◌==◌, if◌then◌else◌, Outcome, ok, fault, out_of_range, out_of_fuel, ◌>>=◌, >>=-eq-ok,
  arith, ◌-◌, ◌%◌, ◌^◌, eq_string, Fallible, value, error, must,
}
use tax_bro.Prelude.Int.{ℤ, pos, negsuc, eq_int}
use tax_bro.Rpc.{index}
use tax_bro.Rpc.Retry.{call_rpc_with_retries}
use tax_bro.Db.{Store}
use tax_bro.Update.User.{to_int32}
use tax_bro.Sync.Store.{SignatureWithBlockIndex, SyncStore}

-- The block time of a row is not read.
pub record Row : Type 0 where
  pub slot : ℤ
  pub signature : String

pub record SlotData : Type 0 where
  pub slot : ℤ
  pub signatures : List String

-- `slots[len(slots)-1]`
abbrev pub last_slot : List SlotData → Outcome SlotData
last_slot [] = fault out_of_range
last_slot (s ∷ []) = ok s
last_slot (s ∷ t ∷ slots) = last_slot (t ∷ slots)

-- `slots[slotsIdx].signatures = append(…, signature)`
abbrev pub add_signature : List SlotData → String → List SlotData
add_signature [] signature = []
add_signature (s ∷ []) signature = record s { signatures = s.signatures ++ signature ∷ [] } ∷ []
add_signature (s ∷ t ∷ slots) signature = s ∷ add_signature (t ∷ slots) signature

-- The loop that groups the rows: `i` advances only in the round that adds to the last slot.
unfoldable pub group_slots : ℕ → List Row → List SlotData → ℕ → Outcome (List SlotData)
group_slots zero txs slots i = fault out_of_fuel
group_slots (suc rounds) txs slots i = if ltb (length txs) i then ok slots else (do
  tx ← index txs i
  last ← last_slot slots
  elim (last.slot == tx.slot) [
    | true ↦ group_slots rounds txs (add_signature slots tx.signature) (i + 1)
    | false ↦
        group_slots rounds txs
          (slots ++ record { slot = tx.slot; signatures = tx.signature ∷ [] } ∷ []) i
  ])

-- `slices.IndexFunc`, whose -1 is an error here.
abbrev pub index_of : List String → String → Fallible ℕ
index_of [] signature = error
index_of (s ∷ signatures) signature =
    let later = index_of signatures signature in
    if s == signature then value 0 else elim later [ value i ↦ value (suc i) | error ↦ error ]

-- `uint64(slot)`
abbrev pub to_uint64 : ℤ → ℕ
to_uint64 (pos n) = n % 2 ^ 64
to_uint64 (negsuc n) = 2 ^ 64 - 1 - n % 2 ^ 64

-- The loop over the signatures of a slot, in the block's signatures.
abbrev pub indexed : List String → List String → Outcome (List SignatureWithBlockIndex)
indexed block [] = ok []
indexed block (signature ∷ signatures) = do
  i ← must (index_of block signature)
  rest ← indexed block signatures
  ok (record { signature = signature; block_index = to_int32 i } ∷ rest)

-- The services of the function: a block's signatures, at each attempt.
module _ (get_block : ℕ → ℕ → Fallible (List String)) (attempts : ℕ) where
  -- The loop over the slots.
  abbrev pub deduped : List SlotData → Outcome (List SignatureWithBlockIndex)
  deduped [] = ok []
  deduped (s ∷ slots) = do
    answer ← call_rpc_with_retries (get_block (to_uint64 s.slot)) (pos 5) attempts
    block ← must answer
    here ← indexed block s.signatures
    rest ← deduped slots
    ok (here ++ rest)

  module _ (db : Store) (sync : SyncStore db) (rounds : ℕ) where
    -- The function behind the select, for any rows.
    abbrev pub deduplicate_rows : List Row → db.State → Outcome db.State
    deduplicate_rows [] st = ok st
    deduplicate_rows (tx ∷ txs) st = do
      slots ← group_slots rounds (tx ∷ txs) [] 0
      indexes ← deduped slots
      must (sync.set_block_indexes indexes st)

    unfoldable pub deduplicate_timestamps : db.State → Outcome db.State
    deduplicate_timestamps st = do _ ← must (sync.select_same_time st); deduplicate_rows [] st

index-bound {ℓ} : {A : Type ℓ} {x : A} (xs : List A) (i : ℕ) → index xs i ≡ ok x → suc i ≤ length xs
index-bound [] i h = cc
index-bound (x ∷ xs) zero h = omega arith
index-bound (x ∷ xs) (suc i) h = let ih = index-bound xs i h in omega arith

-- The grouping never returns slots, whatever the rows and the slots before, from any position up to
-- the end of the rows, and however many rounds it has.
pub group_slots_lem :
    (rounds : ℕ) (txs : List Row) (slots result : List SlotData) (i : ℕ)
    → i ≤ length txs
    → group_slots rounds txs slots i ≢ ok result
unfolding group_slots
group_slots_lem zero txs slots result i h e = cc
group_slots_lem (suc rounds) txs slots result i h e =
    let inside : ltb (length txs) i ≡ false = ground arith in
    let (tx, found, e₁) = >>=-eq-ok (index txs i) _ (rw inside at e) in
    let (last, some_slot, e₂) = >>=-eq-ok (last_slot slots) _ e₁ in
    let room = index-bound txs i found in
    elim (Bool-cases (last.slot == tx.slot)) [
      | inl same ↦
          group_slots_lem rounds txs (add_signature slots tx.signature) result (i + 1) (omega arith)
            (rw same at e₂)
      | inr other ↦
          group_slots_lem rounds txs
            (slots ++ record { slot = tx.slot; signatures = tx.signature ∷ [] } ∷ []) result i h
            (rw other at e₂)
    ]
