-- ===== src/Migrate/Names.antt =====
-- The files of a folder of migrations with one file for each name and direction, as
-- `prepareMigrations` of cmd/migrate/main.go finds a name among them.
use mathlib.Core.List.{reverse}
use tax_bro.Prelude.{
  ℕ, zero, suc, ◌≡◌, refl, ap, Bool, true, false, List, [], ◌∷◌, ◌++◌, All, some, length, take,
  drop, take-append, drop-append, length-append, map, ok, arith, min,
}
use tax_bro.Prelude.Int.{ℤ, pos, negsuc, abs}
use tax_bro.Text.{Bytes, codes, has_prefix, occurs, bytes_eq}
use tax_bro.Text.Split.{split-first}
use tax_bro.Migrate.{Direction, up, down, suffix_of, index_func, last_of, base_name}
use tax_bro.Migrate.Slices.{left_after, limited}

abbrev pub file : Direction → Bytes → Bytes
file direction name = name ++ suffix_of direction

-- The name of the last of the migrations that were run.
abbrev pub checkpoint : List Bytes → Bytes
checkpoint [] = []
checkpoint (x ∷ []) = x
checkpoint (x ∷ y ∷ xs) = checkpoint (y ∷ xs)

-- A name is not empty and has no dot, and no file of the others begins with it.
pub record IsName (others : List Bytes) (name : Bytes) : Type 0 where
  pub some_name : bytes_eq name [] ≡ false
  pub no_dot : occurs (codes ".") name ≡ false
  pub apart : (direction : Direction) → All (λ x. has_prefix (file direction x) name ≡ false) others

abbrev pub IsClear : List Bytes → Type 0
IsClear names =
    (front : List Bytes) (name : Bytes) (back : List Bytes)
    → names ≡ front ++ name ∷ back
    → IsName (front ++ back) name

pub checkpoint-last : (xs : List Bytes) (l : Bytes) → checkpoint (xs ++ l ∷ []) ≡ l
checkpoint-last [] l = refl
checkpoint-last (x ∷ []) l = refl
checkpoint-last (x ∷ y ∷ xs) l = checkpoint-last (y ∷ xs) l

pub checkpoint-append :
    (front : List Bytes) (x : Bytes) (xs : List Bytes)
    → checkpoint (front ++ x ∷ xs) ≡ checkpoint (x ∷ xs)
checkpoint-append [] x xs = refl
checkpoint-append (y ∷ []) x xs = refl
checkpoint-append (y ∷ z ∷ front) x xs = checkpoint-append (z ∷ front) x xs

pub base_name-file :
    (direction : Direction) (name : Bytes)
    → occurs (codes ".") name ≡ false
    → base_name (file direction name) ≡ ok name
unfolding base_name
base_name-file up name h =
    let (parts, e) = split-first b'.' name (codes "up.sql") h in rw (e, base_name)
base_name-file down name h =
    let (parts, e) = split-first b'.' name (codes "down.sql") h in rw (e, base_name)

pub index_func-append :
    (p : Bytes → Bool) (xs : List Bytes) (y : Bytes) (ys : List Bytes)
    → All (λ x. p x ≡ false) xs
    → p y ≡ true
    → index_func p (xs ++ y ∷ ys) ≡ some (length xs)
unfolding index_func
index_func-append p [] y ys others own = ground (arith, own)
index_func-append p (x ∷ xs) y ys others own =
    let found = index_func-append p xs y ys others.1 own in rw (others.0, found) refl

pub left_after-up :
    (front : List Bytes) (m : Bytes) (back : List Bytes) (c : Bytes)
    → bytes_eq c [] ≡ false
    → All (λ x. has_prefix x c ≡ false) front
    → has_prefix m c ≡ true
    → left_after (front ++ m ∷ back) up c ≡ back
unfolding left_after
left_after-up front m back c some_name others own =
    let found = index_func-append (λ filename. has_prefix filename c) front m back others own in
    ground (arith, some_name, found, drop-append front m back)

drop-front : (front back : List Bytes) → drop (length front) (front ++ back) ≡ back
drop-front [] back = refl
drop-front (x ∷ front) back = drop-front front back

pub left_after-down :
    (migrations front : List Bytes) (m : Bytes) (back : List Bytes) (c : Bytes)
    → reverse migrations ≡ front ++ m ∷ back
    → bytes_eq c [] ≡ false
    → All (λ x. has_prefix x c ≡ false) front
    → has_prefix m c ≡ true
    → left_after migrations down c ≡ m ∷ back
unfolding left_after
left_after-down migrations front m back c e some_name others own =
    let found = index_func-append (λ filename. has_prefix filename c) front m back others own in
    let at : index_func (λ filename. has_prefix filename c) (reverse migrations)
        ≡ some (length front) =
      rw e found in
    let rest : drop (length front) (reverse migrations) ≡ m ∷ back =
      rw e (drop-front front (m ∷ back)) in
    ground (arith, some_name, at, rest)

taken :
    (x : Bytes) (xs ys : List Bytes) (n : ℕ)
    → n ≡ suc (length xs)
    → take (min (length ((x ∷ xs) ++ ys)) n) ((x ∷ xs) ++ ys) ≡ x ∷ xs
taken x xs ys n e =
    let shorter : min (length ((x ∷ xs) ++ ys)) n ≡ suc (length xs) =
      omega (arith, length-append xs ys) in
    rw shorter (ap (◌∷◌ x) (take-append xs ys))

-- As many steps as there are items in front.
pub limited-append :
    (steps : ℤ) (x : Bytes) (xs ys : List Bytes)
    → abs steps ≡ length (x ∷ xs)
    → limited steps ((x ∷ xs) ++ ys) ≡ x ∷ xs
unfolding limited
limited-append (pos zero) x xs ys e = absurd (omega arith)
limited-append (pos (suc n)) x xs ys e = taken x xs ys (suc n) e
limited-append (negsuc n) x xs ys e = taken x xs ys (suc n) e

pub last_of-map :
    (direction : Direction) (x : Bytes) (xs : List Bytes)
    → last_of (map (file direction) (x ∷ xs)) ≡ ok (file direction (checkpoint (x ∷ xs)))
unfolding last_of
last_of-map direction x [] = refl
last_of-map direction x (y ∷ xs) = last_of-map direction y xs
