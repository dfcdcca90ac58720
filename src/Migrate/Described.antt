-- ===== src/Migrate/Described.antt =====
-- The plan of `prepareMigrations` in cmd/migrate/main.go, described without its slices and indices.
use tax_bro.Prelude.{
  ℕ, zero, suc, ◌<◌, ◌≡◌, ◌≢◌, refl, sym, ap, subst, ◌∙◌, ◌⊎◌, inl, inr, Bool, true, false,
  Bool-cases, List, [], ◌∷◌, ◌++◌, append-nil, All, none, some, length, take, drop,
  take-append-drop, length-take, drop-append, min, leb, leb→le, if◌then◌else◌, ok, arith,
}
use tax_bro.Prelude.Int.{ℤ, pos, negsuc, abs}
use tax_bro.Text.{Bytes, has_prefix, bytes_eq}
use tax_bro.Migrate.{Direction, up, down, is_down, index_func, base_name}
use tax_bro.Migrate.Slices.{ordered, left_after, limited}

-- What is left of the names, in the order of the direction: all of them without a checkpoint or with
-- one that no name begins with; upwards those behind the first name that begins with it, downwards
-- that one as well.
pub data IsLeft (direction : Direction) (checkpoint : Bytes) (names : List Bytes)
    : List Bytes → Type 0 where
  no_checkpoint : bytes_eq checkpoint [] ≡ true → IsLeft direction checkpoint names names
  not_found :
      bytes_eq checkpoint [] ≡ false
      → All (λ m. has_prefix m checkpoint ≡ false) names
      → IsLeft direction checkpoint names names
  found :
      (front : List Bytes) (m : Bytes) (back : List Bytes)
      → bytes_eq checkpoint [] ≡ false
      → names ≡ front ++ m ∷ back
      → All (λ m. has_prefix m checkpoint ≡ false) front
      → has_prefix m checkpoint ≡ true
      → IsLeft direction checkpoint names (if is_down direction then m ∷ back else back)

-- All that is left is executed, or as many as there are steps.
abbrev pub IsLimited : ℤ → List Bytes → List Bytes → Type 0
IsLimited steps executable back =
    ((back ≡ []) × ((abs steps ≡ 0) ⊎ (length executable < abs steps)))
    ⊎ ((abs steps ≢ 0) × (length executable ≡ abs steps))

-- The name that is stored: none to zero, or if there is nothing to execute; upwards that of the last
-- file executed; downwards that of the file before the last one executed, if there is one.
pub data IsStored (zero_all : Bool) (migrations : List Bytes)
    : Direction → List Bytes → Bytes → Type 0 where
  none_run : {direction : Direction} → IsStored zero_all migrations direction [] []
  to_zero :
      {direction : Direction} {executable : List Bytes}
      → zero_all ≡ true
      → IsStored zero_all migrations direction executable []
  last_run :
      (init : List Bytes) (l : Bytes) {base : Bytes}
      → zero_all ≡ false
      → base_name l ≡ ok base
      → IsStored zero_all migrations up (init ++ l ∷ []) base
  before_first :
      (init back : List Bytes) (l : Bytes)
      → zero_all ≡ false
      → migrations ≡ l ∷ back
      → IsStored zero_all migrations down (init ++ l ∷ []) []
  before_last :
      (init front back : List Bytes) (p l : Bytes) {base : Bytes}
      → zero_all ≡ false
      → migrations ≡ (front ++ p ∷ []) ++ l ∷ back
      → All (λ m. bytes_eq m l ≡ false) (front ++ p ∷ [])
      → base_name p ≡ ok base
      → IsStored zero_all migrations down (init ++ l ∷ []) base

-- Where the first name stands that passes a test.
pub index_func-split :
    (p : Bytes → Bool) (xs : List Bytes)
    → (All (λ m. p m ≡ false) xs × (index_func p xs ≡ none))
      ⊎ ((front : List Bytes) × (m : Bytes) × (back : List Bytes) × (xs ≡ front ++ m ∷ back)
          × All (λ m. p m ≡ false) front
          × (p m ≡ true)
          × (index_func p xs ≡ some (length front)))
unfolding index_func
index_func-split p [] = inl (tt, refl)
index_func-split p (x ∷ xs) = elim (Bool-cases (p x)) [
  | inl own ↦ inr ([], x, xs, refl, tt, own, rw own refl)
  | inr other ↦ elim (index_func-split p xs) [
    | inl (others, missing) ↦ inl ((other, others), rw (other, missing) refl)
    | inr (front, m, back, e, others, own, at) ↦
        inr (x ∷ front, m, back, ap (◌∷◌ x) e, (other, others), own, rw (other, at) refl)
  ]
]

drop-front : (front back : List Bytes) → drop (length front) (front ++ back) ≡ back
drop-front [] back = refl
drop-front (x ∷ front) back = drop-front front back

drop_found :
    (direction : Direction) (front : List Bytes) (m : Bytes) (back : List Bytes)
    → drop (if is_down direction then length front else suc (length front)) (front ++ m ∷ back)
      ≡ (if is_down direction then m ∷ back else back)
drop_found up front m back = drop-append front m back
drop_found down front m back = drop-front front (m ∷ back)

pub left_after-IsLeft :
    (migrations : List Bytes) (direction : Direction) (checkpoint : Bytes)
    → IsLeft direction checkpoint
        (ordered direction migrations)
        (left_after migrations direction checkpoint)
unfolding left_after
left_after-IsLeft migrations direction checkpoint =
    let all = ordered direction migrations in
    elim (Bool-cases (bytes_eq checkpoint [])) [
      | inl none_stored ↦ rw none_stored (no_checkpoint none_stored)
      | inr some_stored ↦ elim (index_func-split (λ filename. has_prefix filename checkpoint) all) [
        | inl (others, missing) ↦ rw (some_stored, missing) (not_found some_stored others)
        | inr (front, m, back, e, others, own, at) ↦
            rw (some_stored, at)
              (subst (IsLeft direction checkpoint all)
                (sym (
                  ap (drop (if is_down direction then length front else suc (length front))) e
                  ∙ drop_found direction front m back))
                (found front m back some_stored e others own))
      ]
    ]

taken-IsLimited :
    (steps : ℤ) (n : ℕ) (xs : List Bytes)
    → abs steps ≡ suc n
    → IsLimited steps (take (min (length xs) (suc n)) xs) (drop (min (length xs) (suc n)) xs)
taken-IsLimited steps n xs e = elim (Bool-cases (leb (suc n) (length xs))) [
  | inl fits ↦
      let high = leb→le (suc n) (length xs) fits in
      inr (omega arith, omega (arith, length-take (min (length xs) (suc n)) xs))
  | inr short ↦
      let low : length xs < suc n = ground (arith, short) in
      let whole : min (length xs) (suc n) ≡ length xs = omega arith in
      inl (rw whole (drop_all xs), inr (omega (arith, length-take (min (length xs) (suc n)) xs)))
]
  where
    drop_all : (xs : List Bytes) → drop (length xs) xs ≡ []
    drop_all [] = refl
    drop_all (x ∷ xs) = drop_all xs

pub limited-IsLimited :
    (steps : ℤ) (xs : List Bytes)
    → (back : List Bytes) × (limited steps xs ++ back ≡ xs)
      × IsLimited steps (limited steps xs) back
unfolding limited
limited-IsLimited (pos zero) xs = ([], append-nil xs, inl (refl, inl refl))
limited-IsLimited (pos (suc n)) xs =
    let k = min (length xs) (suc n) in
    (drop k xs, take-append-drop k xs, taken-IsLimited (pos (suc n)) n xs refl)
limited-IsLimited (negsuc n) xs =
    let k = min (length xs) (suc n) in
    (drop k xs, take-append-drop k xs, taken-IsLimited (negsuc n) n xs refl)
