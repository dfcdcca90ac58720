-- ===== src/Migrate/Slices.antt =====
-- No slice of `prepareMigrations` in cmd/migrate/main.go is out of range: what it computes, without
-- the tests of the bounds.
use mathlib.Core.List.{reverse}
use tax_bro.Prelude.{
  ℕ, zero, suc, ◌<◌, ◌≤◌, ◌≡◌, refl, Bool, true, Bool-cases, inl, inr, List, [], ◌∷◌, Option-cases,
  none, some, length, take, drop, min, leb, if◌then◌else◌, Outcome, ok, ◌>>=◌, arith,
}
use tax_bro.Prelude.Int.{ℤ, pos, negsuc, abs}
use tax_bro.Text.{Bytes, has_prefix, bytes_eq}
use tax_bro.Migrate.{
  Direction, is_down, MigrationsOpts, index_func, slice_from, slice_to, after_checkpoint,
  limit_steps, new_checkpoint, base_name, plan_remaining, prepare_migrations,
}

-- The names in the order in which the direction runs them.
abbrev pub ordered : Direction → List Bytes → List Bytes
ordered direction migrations = if is_down direction then reverse migrations else migrations

-- The names that are left after the checkpoint.
unfoldable pub left_after : List Bytes → Direction → Bytes → List Bytes
unfolding index_func
left_after migrations direction checkpoint =
    let ordered = if is_down direction then reverse migrations else migrations in
    if bytes_eq checkpoint []
    then ordered
    else elim (index_func (λ filename. has_prefix filename checkpoint) ordered) [
      | none ↦ ordered
      | some idx ↦ drop (if is_down direction then idx else suc idx) ordered
    ]

-- As many of them as there are steps.
unfoldable pub limited : ℤ → List Bytes → List Bytes
limited (pos zero) executable = executable
limited steps executable = take (min (length executable) (abs steps)) executable

-- The plan of the names that are left.
unfoldable pub planned :
    List Bytes → Direction → MigrationsOpts → List Bytes → Outcome (Bytes × List Bytes)
planned migrations direction opts [] = ok ([], [])
planned migrations direction opts (x ∷ xs) = do
  let executable = limited opts.steps (x ∷ xs)
  name ← new_checkpoint opts.zero_all direction migrations executable
  base ← base_name name
  ok (base, executable)

pub index_func-lt :
    (p : Bytes → Bool) (xs : List Bytes) (i : ℕ) → index_func p xs ≡ some i → i < length xs
unfolding index_func
index_func-lt p [] i h = cc
index_func-lt p (x ∷ xs) i h = elim (Option-cases (index_func p xs)) [
  | inl missing ↦ ground (arith, missing)
  | inr (j, found) ↦ ground (arith, found, index_func-lt p xs j found)
]

slice_from-ok : (i : ℕ) (xs : List Bytes) → i ≤ length xs → slice_from i xs ≡ ok (drop i xs)
slice_from-ok i xs h = let fits : leb i (length xs) ≡ true = ground arith in rw fits refl

slice_to-ok : (n : ℕ) (xs : List Bytes) → n ≤ length xs → slice_to n xs ≡ ok (take n xs)
slice_to-ok n xs h = let fits : leb n (length xs) ≡ true = ground arith in rw fits refl

pub after_checkpoint-left_after :
    (migrations : List Bytes) (direction : Direction) (checkpoint : Bytes)
    → after_checkpoint migrations direction checkpoint
      ≡ ok (left_after migrations direction checkpoint)
unfolding after_checkpoint left_after
after_checkpoint-left_after migrations direction checkpoint =
    let all = if is_down direction then reverse migrations else migrations in
    elim (Bool-cases (bytes_eq checkpoint [])) [
      | inl nothing ↦ rw nothing refl
      | inr something ↦
          elim (Option-cases (index_func (λ filename. has_prefix filename checkpoint) all)) [
            | inl missing ↦ rw (something, missing) refl
            | inr (idx, found) ↦
                let high =
                  index_func-lt (λ filename. has_prefix filename checkpoint) all idx found in
                rw (something, found)
                  (slice_from-ok (if is_down direction then idx else suc idx) all
                    (ground (arith, high)))
          ]
    ]

pub limit_steps-limited :
    (steps : ℤ) (executable : List Bytes)
    → limit_steps steps executable ≡ ok (limited steps executable)
unfolding limit_steps limited
limit_steps-limited (pos zero) executable = refl
limit_steps-limited (pos (suc n)) executable =
    slice_to-ok (min (length executable) (suc n)) executable (omega arith)
limit_steps-limited (negsuc n) executable =
    slice_to-ok (min (length executable) (suc n)) executable (omega arith)

plan_remaining-planned :
    (migrations : List Bytes) (direction : Direction) (opts : MigrationsOpts)
    (remaining : List Bytes)
    → plan_remaining migrations direction opts remaining
      ≡ planned migrations direction opts remaining
unfolding plan_remaining planned
plan_remaining-planned migrations direction opts [] = refl
plan_remaining-planned migrations direction opts (x ∷ xs) =
    rw (limit_steps-limited opts.steps (x ∷ xs)) refl

pub prepare_migrations-planned :
    (migrations : List Bytes) (direction : Direction) (checkpoint : Bytes) (opts : MigrationsOpts)
    → prepare_migrations migrations direction checkpoint opts
      ≡ planned migrations direction opts (left_after migrations direction checkpoint)
unfolding prepare_migrations
prepare_migrations-planned migrations direction checkpoint opts =
    rw (after_checkpoint-left_after migrations direction checkpoint) (
      plan_remaining-planned migrations direction opts (left_after migrations direction checkpoint))
