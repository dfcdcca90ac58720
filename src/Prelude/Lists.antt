-- ===== src/Prelude/Lists.antt =====
-- Lists measured and indexed by native numbers, under the library's names.
use Prim.Native.Nat.{ℕ, zero, suc, ◌+◌, min}
use mathlib.Core.Path.{◌≡◌, refl, ap, sym}
use mathlib.Core.Bool.{Bool, false, ◌||◌}
use mathlib.Core.List.{List, [], ◌∷◌, ◌++◌, map, append_assoc, reverse, reverse-cons}
use mathlib.Core.Option.{Option, none, some}
use native.Mathlib.Omega.{arith}
use tax_bro.Prelude.Tests.{Eq, ◌==◌, if◌then◌else◌}

module _ {ℓ} {A : Type ℓ} where
  abbrev pub length : List A → ℕ
  length [] = 0
  length (x ∷ xs) = suc (length xs)

  abbrev pub get_elem? : List A → ℕ → Option A
  get_elem? [] i = none
  get_elem? (x ∷ xs) zero = some x
  get_elem? (x ∷ xs) (suc i) = get_elem? xs i

  abbrev pub take : ℕ → List A → List A
  take zero xs = []
  take (suc n) [] = []
  take (suc n) (x ∷ xs) = x ∷ take n xs

  abbrev pub drop : ℕ → List A → List A
  drop zero xs = xs
  drop (suc n) [] = []
  drop (suc n) (x ∷ xs) = drop n xs

  abbrev pub replicate : ℕ → A → List A
  replicate zero a = []
  replicate (suc n) a = a ∷ replicate n a

  -- A predicate by recursion, which the tactics read and build.
  abbrev pub All {κ} : (A → Type κ) → List A → Type κ
  All P [] = Unit
  All P (x ∷ xs) = P x × All P xs

  pub length-append : (xs ys : List A) → length (xs ++ ys) ≡ length xs + length ys
  length-append [] ys = omega arith
  length-append (x ∷ xs) ys = omega (arith, length-append xs ys)

  pub length-take : (n : ℕ) (xs : List A) → length (take n xs) ≡ min n (length xs)
  length-take zero xs = omega arith
  length-take (suc n) [] = omega arith
  length-take (suc n) (x ∷ xs) = omega (arith, length-take n xs)

  pub take-append-drop : (n : ℕ) (xs : List A) → take n xs ++ drop n xs ≡ xs
  take-append-drop zero xs = refl
  take-append-drop (suc n) [] = refl
  take-append-drop (suc n) (x ∷ xs) = rw (take-append-drop n xs)

  pub get_elem?-append :
      (xs : List A) (x : A) (ys : List A) → get_elem? (xs ++ x ∷ ys) (length xs) ≡ some x
  get_elem?-append [] x ys = refl
  get_elem?-append (z ∷ xs) x ys = get_elem?-append xs x ys

  pub take-append : (xs ys : List A) → take (length xs) (xs ++ ys) ≡ xs
  take-append [] ys = refl
  take-append (z ∷ xs) ys = ap (◌∷◌ z) (take-append xs ys)

  pub drop-append : (xs : List A) (x : A) (ys : List A) → drop (suc (length xs)) (xs ++ x ∷ ys) ≡ ys
  drop-append [] x ys = refl
  drop-append (z ∷ xs) x ys = drop-append xs x ys

  pub All-append {κ} :
      (P : A → Type κ) (front back : List A) → All P front → All P back → All P (front ++ back)
  All-append P [] back before behind = behind
  All-append P (a ∷ front) back before behind = (before.0, All-append P front back before.1 behind)

  pub All-front {κ} : (P : A → Type κ) (front back : List A) → All P (front ++ back) → All P front
  All-front P [] back all = tt
  All-front P (a ∷ front) back all = (all.0, All-front P front back all.1)

  pub All-back {κ} : (P : A → Type κ) (front back : List A) → All P (front ++ back) → All P back
  All-back P [] back all = all
  All-back P (a ∷ front) back all = All-back P front back all.1

  pub All-reverse {κ} : (P : A → Type κ) (xs : List A) → All P xs → All P (reverse xs)
  All-reverse P [] all = tt
  All-reverse P (x ∷ xs) all =
      rw (reverse-cons x xs)
        (All-append P (reverse xs) (x ∷ []) (All-reverse P xs all.1) (all.0, tt))

  pub length-reverse : (xs : List A) → length (reverse xs) ≡ length xs
  length-reverse [] = refl
  length-reverse (x ∷ xs) =
      rw (reverse-cons x xs, length-append (reverse xs) (x ∷ []), length-reverse xs) (omega arith)

  -- The last item of a list that is not empty.
  pub front-last : (x : A) (xs : List A) → (front : List A) × (l : A) × (x ∷ xs ≡ front ++ l ∷ [])
  front-last x [] = ([], x, refl)
  front-last x (y ∷ xs) = let (front, l, e) = front-last y xs in (x ∷ front, l, ap (◌∷◌ x) e)

pub map-append {ℓ κ} :
    {A : Type ℓ} {B : Type κ} (f : A → B) (xs ys : List A) → map f (xs ++ ys) ≡ map f xs ++ map f ys
map-append f [] ys = refl
map-append f (x ∷ xs) ys = ap (◌∷◌ (f x)) (map-append f xs ys)

pub map-reverse {ℓ κ} :
    {A : Type ℓ} {B : Type κ} (f : A → B) (xs : List A) → map f (reverse xs) ≡ reverse (map f xs)
map-reverse f [] = refl
map-reverse f (x ∷ xs) = rw (
  reverse-cons x xs,
  reverse-cons (f x) (map f xs),
  map-append f (reverse xs) (x ∷ []),
  map-reverse f xs,
)

pub All-map {ℓ κ ν} :
    {A : Type ℓ} {B : Type κ} (P : B → Type ν) (f : A → B) (xs : List A)
    → All (λ x. P (f x)) xs
    → All P (map f xs)
All-map P f [] all = tt
All-map P f (x ∷ xs) all = (all.0, All-map P f xs all.1)

pub length-map {ℓ κ} :
    {A : Type ℓ} {B : Type κ} (f : A → B) (xs : List A) → length (map f xs) ≡ length xs
length-map f [] = refl
length-map f (x ∷ xs) = ap suc (length-map f xs)

module _ {ℓ} {A : Type ℓ} ⦃e : Eq A⦄ where
  abbrev pub contains : List A → A → Bool
  contains [] a = false
  contains (x ∷ xs) a = x == a || contains xs a

module _ {ℓ κ} {A : Type ℓ} {B : Type κ} where
  abbrev pub flat_map : (A → List B) → List A → List B
  flat_map f [] = []
  flat_map f (x ∷ xs) = f x ++ flat_map f xs

  pub flat_map-append :
      (f : A → List B) (xs ys : List A) → flat_map f (xs ++ ys) ≡ flat_map f xs ++ flat_map f ys
  flat_map-append f [] ys = refl
  flat_map-append f (x ∷ xs) ys =
      rw (flat_map-append f xs ys) (sym (append_assoc (f x) (flat_map f xs) (flat_map f ys)))

-- The items that pass a Boolean test, in their order.
abbrev pub select {ℓ} : {A : Type ℓ} → (A → Bool) → List A → List A
select p [] = []
select p (x ∷ xs) = let rest = select p xs in if p x then x ∷ rest else rest

pub select-append {ℓ} :
    {A : Type ℓ} (p : A → Bool) (xs ys : List A) → select p (xs ++ ys) ≡ select p xs ++ select p ys
select-append p [] ys = refl
select-append p (x ∷ xs) ys = ground (arith, select-append p xs ys)
