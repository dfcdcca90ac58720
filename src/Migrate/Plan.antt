-- ===== src/Migrate/Plan.antt =====
-- `prepareMigrations` of cmd/migrate/main.go: what is run, and where it stops.
use mathlib.Core.Logic.{◌⊎◌}
use tax_bro.Prelude.{
  ℕ, zero, suc, ◌<◌, ◌≡◌, refl, sym, ap, subst, ◌∙◌, Bool, true, false, Bool-cases, inl, inr, List,
  [], ◌∷◌, ◌++◌, append-nil, Option-cases, some, length, take, drop, take-append-drop, get_elem?,
  min, if◌then◌else◌, ok, arith,
}
use tax_bro.Prelude.Int.{ℤ, pos, negsuc}
use tax_bro.Text.{Bytes, codes, has_prefix, bytes_eq}
use tax_bro.Text.Split.{split-cons}
use tax_bro.Migrate.{
  Direction, up, down, is_down, MigrationsOpts, index_func, last_of, name_before, new_checkpoint,
  base_name, prepare_migrations,
}
use tax_bro.Migrate.Described.{
  IsLeft, IsLimited, IsStored, none_run, left_after-IsLeft, limited-IsLimited,
}
use tax_bro.Migrate.Stored.{new_checkpoint-IsStored}
use tax_bro.Migrate.Slices.{
  ordered, left_after, limited, planned, index_func-lt, prepare_migrations-planned,
}

pub base_name-total : (name : Bytes) → (base : Bytes) × (base_name name ≡ ok base)
unfolding base_name
base_name-total name =
    let (part, parts, e) = split-cons name (codes ".") in (part, rw (e, base_name))

pub last_of-total : (x : Bytes) (xs : List Bytes) → (l : Bytes) × (last_of (x ∷ xs) ≡ ok l)
unfolding last_of
last_of-total x [] = (x, refl)
last_of-total x (y ∷ xs) = last_of-total y xs

get_elem?-total :
    (xs : List Bytes) (i : ℕ) → i < length xs → (x : Bytes) × (get_elem? xs i ≡ some x)
get_elem?-total [] i h = absurd (omega arith)
get_elem?-total (x ∷ xs) zero h = (x, refl)
get_elem?-total (x ∷ xs) (suc i) h = get_elem?-total xs i (omega arith)

name_before-total :
    (p : Bytes → Bool) (migrations : List Bytes)
    → (name : Bytes) × (name_before (index_func p migrations) migrations ≡ ok name)
name_before-total p migrations = elim (Option-cases (index_func p migrations)) [
  | inl missing ↦ ([], rw missing)
  | inr (zero, found) ↦ ([], rw found)
  | inr (suc i, found) ↦
      let (name, e) =
        get_elem?-total migrations i (omega (arith, index_func-lt p migrations (suc i) found)) in
      (name, rw found (rw (e, name_before)))
]

new_checkpoint-total :
    (zero_all : Bool) (direction : Direction) (migrations : List Bytes) (x : Bytes)
    (xs : List Bytes)
    → (name : Bytes) × (new_checkpoint zero_all direction migrations (x ∷ xs) ≡ ok name)
unfolding new_checkpoint
new_checkpoint-total true direction migrations x xs = ([], refl)
new_checkpoint-total false up migrations x xs = last_of-total x xs
new_checkpoint-total false down migrations x xs =
    let (l, e) = last_of-total x xs in
    let (name, found) = name_before-total (λ m. bytes_eq m l) migrations in (name, rw (e, found))

-- What is left after the checkpoint is an end of the ordered names.
pub left_after-end :
    (migrations : List Bytes) (direction : Direction) (checkpoint : Bytes)
    → (front : List Bytes) × (front ++ left_after migrations direction checkpoint
        ≡ ordered direction migrations)
unfolding left_after
left_after-end migrations direction checkpoint =
    let all = ordered direction migrations in
    elim (Bool-cases (bytes_eq checkpoint [])) [
      | inl nothing ↦ ([], rw nothing)
      | inr something ↦
          elim (Option-cases (index_func (λ filename. has_prefix filename checkpoint) all)) [
            | inl missing ↦ ([], ground (arith, something, missing))
            | inr (idx, found) ↦
                let from = if is_down direction then idx else suc idx in
                (take from all, ground (arith, something, found, take-append-drop from all))
          ]
    ]

pub limited-front :
    (steps : ℤ) (executable : List Bytes)
    → (back : List Bytes) × (limited steps executable ++ back ≡ executable)
unfolding limited
limited-front (pos zero) executable = ([], append-nil executable)
limited-front (pos (suc n)) executable =
    let k = min (length executable) (suc n) in (drop k executable, take-append-drop k executable)
limited-front (negsuc n) executable =
    let k = min (length executable) (suc n) in (drop k executable, take-append-drop k executable)

limited-cons :
    (steps : ℤ) (x : Bytes) (xs : List Bytes)
    → (ys : List Bytes) × (limited steps (x ∷ xs) ≡ x ∷ ys)
unfolding limited
limited-cons (pos zero) x xs = (xs, refl)
limited-cons (pos (suc n)) x xs =
    let e : min (suc (length xs)) (suc n) ≡ suc (min (length xs) n) = omega arith in
    (take (min (length xs) n) xs, rw e)
limited-cons (negsuc n) x xs =
    let e : min (suc (length xs)) (suc n) ≡ suc (min (length xs) n) = omega arith in
    (take (min (length xs) n) xs, rw e)

pub List-cases {ℓ} :
    {A : Type ℓ} (xs : List A) → (xs ≡ []) ⊎ ((x : A) × (ys : List A) × (xs ≡ x ∷ ys))
List-cases [] = inl refl
List-cases (x ∷ ys) = inr (x, ys, refl)

nothing-IsLimited : (steps : ℤ) → IsLimited steps [] []
nothing-IsLimited (pos zero) = inl (refl, inl refl)
nothing-IsLimited (pos (suc n)) = inl (refl, inr (omega arith))
nothing-IsLimited (negsuc n) = inl (refl, inr (omega arith))

-- Whatever the files, the flags and the stored checkpoint, no slice or index is out of range, and
-- the plan is made. The migrations that it runs are an unbroken stretch of the names in the order of the
-- direction: it begins behind the checkpoint as `IsLeft` says, is as long as the steps say or
-- goes to the end, and the name that is stored is the one that `IsStored` says.
pub prepare_migrations-contiguous :
    (migrations : List Bytes) (direction : Direction) (checkpoint : Bytes) (opts : MigrationsOpts)
    → (base : Bytes) × (executable front back : List Bytes) × (prepare_migrations migrations
          direction checkpoint opts
        ≡ ok (base, executable))
      × (front ++ (executable ++ back) ≡ ordered direction migrations)
      × IsLeft direction checkpoint (ordered direction migrations) (executable ++ back)
      × IsLimited opts.steps executable back
      × IsStored opts.zero_all migrations direction executable base
unfolding planned
prepare_migrations-contiguous migrations direction checkpoint opts =
    let plan = prepare_migrations-planned migrations direction checkpoint opts in
    let is_left = left_after-IsLeft migrations direction checkpoint in
    let (front, whole) = left_after-end migrations direction checkpoint in
    elim (List-cases (left_after migrations direction checkpoint)) [
      | inl nothing_left ↦ (
        [],
        [],
        front,
        [],
        plan ∙ rw nothing_left refl,
        rw nothing_left at whole,
        rw nothing_left at is_left,
        nothing-IsLimited opts.steps,
        none_run,
      )
      | inr (x, xs, some_left) ↦
          let (ys, executes) = limited-cons opts.steps x xs in
          let (back, split_here, limits) = limited-IsLimited opts.steps (x ∷ xs) in
          let (name, e) = new_checkpoint-total opts.zero_all direction migrations x ys in
          let (base, based) = base_name-total name in
          let joined : left_after migrations direction checkpoint ≡ (x ∷ ys) ++ back =
            some_left ∙ sym split_here ∙ ap (λ l. l ++ back) executes in
          let stretch : front ++ ((x ∷ ys) ++ back) ≡ ordered direction migrations =
            ap (λ l. front ++ l) (sym joined) ∙ whole in
          (
            base,
            x ∷ ys,
            front,
            back,
            plan ∙ rw (some_left, executes, e, based) refl,
            stretch,
            subst (IsLeft direction checkpoint (ordered direction migrations)) joined is_left,
            subst (λ z. IsLimited opts.steps z back) executes limits,
            new_checkpoint-IsStored opts.zero_all direction migrations (x ∷ ys) front back name base
                stretch e based,
          )
    ]
