-- ===== src/Migrate/Resume.antt =====
-- `prepareMigrations` of cmd/migrate/main.go over two runs: the second goes on where the first
-- stopped.
use tax_bro.Prelude.{
  ◌⊎◌, suc, ◌≡◌, ◌≢◌, refl, sym, ap, ◌∙◌, Bool, false, List, [], ◌∷◌, ◌++◌, append_assoc, some,
  length, drop, drop-append, ok, ok-injective, >>=-eq-ok, arith, inl, inr,
}
use tax_bro.Prelude.Int.{pos}
use tax_bro.Text.{Bytes, has_prefix, bytes_eq}
use tax_bro.Migrate.{
  up, MigrationsOpts, index_func, last_of, new_checkpoint, base_name, prepare_migrations,
}
use tax_bro.Migrate.Stored.{last_of-append}
use tax_bro.Migrate.Slices.{left_after, limited, planned, prepare_migrations-planned}
use tax_bro.Migrate.Plan.{left_after-end, limited-front, List-cases, last_of-total, base_name-total}

-- The stored name of each file is not empty, and no earlier file begins with it.
abbrev pub IsUnambiguous : List Bytes → Type 0
IsUnambiguous migrations =
    (front : List Bytes) (name : Bytes) (back : List Bytes) (base : Bytes)
    → migrations ≡ front ++ name ∷ back
    → base_name name ≡ ok base
    → (bytes_eq base [] ≡ false)
      × (index_func (λ filename. has_prefix filename base) migrations ≡ some (length front))

left_after-back :
    (front : List Bytes) (name : Bytes) (back migrations : List Bytes) (base : Bytes)
    → migrations ≡ front ++ name ∷ back
    → IsUnambiguous migrations
    → base_name name ≡ ok base
    → left_after migrations up base ≡ back
unfolding left_after
left_after-back front name back migrations base e unambiguous based =
    let (some_name, found) = unambiguous front name back base e based in
    let rest : drop (suc (length front)) migrations ≡ back = rw e (drop-append front name back) in
    ground (arith, some_name, found, rest)

new_checkpoint-up :
    {zero_all : Bool} (migrations executed : List Bytes)
    → zero_all ≡ false
    → new_checkpoint zero_all up migrations executed ≡ last_of executed
unfolding new_checkpoint
new_checkpoint-up migrations executed h = rw h

planned-last :
    (migrations : List Bytes) (opts : MigrationsOpts) (x : Bytes) (xs : List Bytes) (l base : Bytes)
    → opts.zero_all ≡ false
    → opts.steps ≡ pos 0
    → last_of (x ∷ xs) ≡ ok l
    → base_name l ≡ ok base
    → planned migrations up opts (x ∷ xs) ≡ ok (base, x ∷ xs)
unfolding planned limited new_checkpoint
planned-last migrations opts x xs l base h e at_last based = rw (e, h, at_last, based) refl

last_of-behind :
    (front : List Bytes) (y : Bytes) (ys : List Bytes)
    → last_of (front ++ y ∷ ys) ≡ last_of (y ∷ ys)
unfolding last_of
last_of-behind [] y ys = refl
last_of-behind (x ∷ []) y ys = refl
last_of-behind (x ∷ x' ∷ front) y ys = last_of-behind (x' ∷ front) y ys

-- Where the first run stopped, and what is left.
resumed :
    (migrations : List Bytes) (c c' : Bytes) (first : List Bytes) (opts : MigrationsOpts)
    → opts.zero_all ≡ false
    → planned migrations up opts (left_after migrations up c) ≡ ok (c', first)
    → first ≢ []
    → IsUnambiguous migrations
    → first ++ left_after migrations up c' ≡ left_after migrations up c
unfolding planned
resumed migrations c c' first opts h e ne unambiguous =
    let (front, whole) = left_after-end migrations up c in
    elim (List-cases (left_after migrations up c)) [
      | inl nothing ↦ absurd (ne (sym (ap (λ r. r.1) (ok-injective (rw nothing at e)))))
      | inr (x, xs, some_left) ↦
          let executed = limited opts.steps (x ∷ xs) in
          let (name, ran, e₁) =
            >>=-eq-ok (new_checkpoint opts.zero_all up migrations executed) _ (rw some_left at e) in
          let (base, based, e₂) = >>=-eq-ok (base_name name) _ e₁ in
          let same_base : base ≡ c' = ap (λ r. r.0) (ok-injective e₂) in
          let same_first : executed ≡ first = ap (λ r. r.1) (ok-injective e₂) in
          let (init, ends) =
            last_of-append executed name (sym (new_checkpoint-up migrations executed h) ∙ ran) in
          let (back, joined) = limited-front opts.steps (x ∷ xs) in
          let positioned : migrations ≡ (front ++ init) ++ name ∷ back =
            sym whole
            ∙ ap (λ l. front ++ l)
                (some_left
                  ∙ sym joined
                  ∙ ap (λ l. l ++ back) ends
                  ∙ append_assoc init (name ∷ []) back)
            ∙ sym (append_assoc front init (name ∷ back)) in
          let left =
            left_after-back (front ++ init) name back migrations base positioned unambiguous
              based in
          rw (← same_first, ← same_base, left) (joined ∙ sym some_left)
    ]

-- What both plans are, from what is left for each.
both_planned :
    (migrations : List Bytes) (opts : MigrationsOpts) (x : Bytes) (first rest : List Bytes)
    → opts.zero_all ≡ false
    → opts.steps ≡ pos 0
    → (c₁ c₂ : Bytes) × (planned migrations up opts rest ≡ ok (c₁, rest))
      × (planned migrations up opts ((x ∷ first) ++ rest) ≡ ok (c₂, (x ∷ first) ++ rest))
      × ((rest ≡ []) ⊎ (c₁ ≡ c₂))
unfolding planned
both_planned migrations opts x first [] h e =
    let (l, at_last) = last_of-total x (first ++ []) in
    let (base, based) = base_name-total l in
    (
      [],
      base,
      refl,
      planned-last migrations opts x (first ++ []) l base h e at_last based,
      inl refl,
    )
both_planned migrations opts x first (y ∷ ys) h e =
    let (l, at_last) = last_of-total y ys in
    let (base, based) = base_name-total l in
    (
      base,
      base,
      planned-last migrations opts y ys l base h e at_last based,
      planned-last migrations opts x (first ++ y ∷ ys) l base h e
          (last_of-behind (x ∷ first) y ys ∙ at_last) based,
      inr refl,
    )

-- A run upwards from the checkpoint `c` that is not to zero, that stores `c'` and that executes at
-- least one file, and then a run upwards from `c'` that is neither to zero nor has steps: together
-- they execute what one such run from `c` executes, if the files' names are unambiguous. And if the
-- second has a file to execute, it stores what the one run stores.
pub prepare_migrations-resume :
    (migrations : List Bytes) (c c' : Bytes) (first : List Bytes) (opts opts' : MigrationsOpts)
    → opts.zero_all ≡ false
    → prepare_migrations migrations up c opts ≡ ok (c', first)
    → first ≢ []
    → IsUnambiguous migrations
    → opts'.zero_all ≡ false
    → opts'.steps ≡ pos 0
    → (c₁ c₂ : Bytes) × (rest : List Bytes) × (prepare_migrations migrations up c' opts'
        ≡ ok (c₁, rest))
      × (prepare_migrations migrations up c opts' ≡ ok (c₂, first ++ rest))
      × ((rest ≡ []) ⊎ (c₁ ≡ c₂))
prepare_migrations-resume migrations c c' [] opts opts' h e ne unambiguous h' e' = absurd (ne refl)
prepare_migrations-resume migrations c c' (x ∷ first) opts opts' h e ne unambiguous h' e' =
    let rest = left_after migrations up c' in
    let whole =
      resumed migrations c c' (x ∷ first) opts h (sym (prepare_migrations-planned _ _ _ opts) ∙ e)
        ne unambiguous in
    let (c₁, c₂, second, at_once, same) = both_planned migrations opts' x first rest h' e' in
    (
      c₁,
      c₂,
      rest,
      prepare_migrations-planned _ _ _ opts' ∙ second,
      prepare_migrations-planned _ _ _ opts'
          ∙ ap (planned migrations up opts') (sym whole)
          ∙ at_once,
      same,
    )
