-- ===== src/Db/Order.antt =====
-- The order of the rows of a query with ORDER BY, over keys that are natural numbers.
use tax_bro.Prelude.{
  ℕ, ◌<◌, ◌≡◌, ◌≢◌, refl, sym, ap, ◌∙◌, List, [], ◌∷◌, All, leb, if◌then◌else◌, arith,
}

-- The same rows in another order.
pub data Reordered {ℓ} {A : Type ℓ} : List A → List A → Type ℓ where
  unmoved : {rows : List A} → Reordered rows rows
  behind : {a : A} {rows rows' : List A} → Reordered rows rows' → Reordered (a ∷ rows) (a ∷ rows')
  swapped : {a b : A} {rows : List A} → Reordered (a ∷ b ∷ rows) (b ∷ a ∷ rows)
  twice :
      {rows rows' rows'' : List A}
      → Reordered rows rows'
      → Reordered rows' rows''
      → Reordered rows rows''

module _ {ℓ} {A : Type ℓ} (key : A → ℕ) where
  unfoldable pub insert_by : A → List A → List A
  insert_by a [] = a ∷ []
  insert_by a (b ∷ rows) =
      let rest = insert_by a rows in if leb (key a) (key b) then a ∷ b ∷ rows else b ∷ rest

  unfoldable pub order_by : List A → List A
  unfolding insert_by
  order_by [] = []
  order_by (a ∷ rows) = insert_by a (order_by rows)

  -- The keys of all rows are different.
  abbrev pub IsDistinct : List A → Type ℓ
  IsDistinct [] = Unit
  IsDistinct (a ∷ rows) = All (λ b. key a ≢ key b) rows × IsDistinct rows

  -- The rows stand in the order of their keys.
  abbrev pub IsOrdered : List A → Type ℓ
  IsOrdered [] = Unit
  IsOrdered (a ∷ rows) = All (λ b. key a < key b) rows × IsOrdered rows

  insert_by_comm :
      (a b : A) (rows : List A)
      → key a ≢ key b
      → insert_by a (insert_by b rows) ≡ insert_by b (insert_by a rows)
  unfolding insert_by
  insert_by_comm a b [] ne = ground arith
  insert_by_comm a b (c ∷ rows) ne = ground (arith, insert_by_comm a b rows ne)

  All-Reordered {κ} :
      (P : A → Type κ) {rows rows' : List A} → Reordered rows rows' → All P rows → All P rows'
  All-Reordered P unmoved all = all
  All-Reordered P (behind same) all = (all.0, All-Reordered P same all.1)
  All-Reordered P swapped all = (all.1.0, (all.0, all.1.1))
  All-Reordered P (twice same same') all = All-Reordered P same' (All-Reordered P same all)

  IsDistinct-Reordered :
      {rows rows' : List A} → Reordered rows rows' → IsDistinct rows → IsDistinct rows'
  IsDistinct-Reordered unmoved d = d
  IsDistinct-Reordered (behind same) d = (All-Reordered _ same d.0, IsDistinct-Reordered same d.1)
  IsDistinct-Reordered swapped d = (((λ h. d.0.0 (sym h)), d.1.0), (d.0.1, d.1.1))
  IsDistinct-Reordered (twice same same') d =
      IsDistinct-Reordered same' (IsDistinct-Reordered same d)

  -- In whichever order the rows are read, they come out in the same one.
  order_by-Reordered :
      {rows rows' : List A}
      → Reordered rows rows'
      → IsDistinct rows
      → order_by rows ≡ order_by rows'
  unfolding order_by
  order_by-Reordered unmoved d = refl
  order_by-Reordered (behind {a = a} same) d = ap (insert_by a) (order_by-Reordered same d.1)
  order_by-Reordered (swapped {a = a} {b = b} {rows = rows}) d =
      insert_by_comm a b (order_by rows) d.0.0
  order_by-Reordered (twice same same') d =
      order_by-Reordered same d ∙ order_by-Reordered same' (IsDistinct-Reordered same d)

  insert_by-first :
      (a : A) (rows : List A) → All (λ b. key a < key b) rows → insert_by a rows ≡ a ∷ rows
  unfolding insert_by
  insert_by-first a [] h = refl
  insert_by-first a (b ∷ rows) h = let lower = h.0 in ground (arith, lower)

  order_by-IsOrdered : (rows : List A) → IsOrdered rows → order_by rows ≡ rows
  unfolding order_by
  order_by-IsOrdered [] h = refl
  order_by-IsOrdered (a ∷ rows) h =
      ap (insert_by a) (order_by-IsOrdered rows h.1) ∙ insert_by-first a rows h.0

  all_apart :
      (a : A) (rows : List A) → All (λ b. key a < key b) rows → All (λ b. key a ≢ key b) rows
  all_apart a [] h = tt
  all_apart a (b ∷ rows) h = (omega arith, all_apart a rows h.1)

  IsOrdered-IsDistinct : (rows : List A) → IsOrdered rows → IsDistinct rows
  IsOrdered-IsDistinct [] h = tt
  IsOrdered-IsDistinct (a ∷ rows) h = (all_apart a rows h.0, IsOrdered-IsDistinct rows h.1)

  -- Rows read in any order come out in the order of their keys.
  pub order_by_lem :
      (rows rows' : List A) → Reordered rows rows' → IsOrdered rows → order_by rows' ≡ rows
  order_by_lem rows rows' same h =
      sym (order_by-Reordered same (IsOrdered-IsDistinct rows h)) ∙ order_by-IsOrdered rows h
