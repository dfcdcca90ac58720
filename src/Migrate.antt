-- ===== src/Migrate.antt =====
-- cmd/migrate/main.go: which migrations are run, and the checkpoint that is stored. A file name is
-- the list of its bytes.
pub mod Plan
pub mod Slices
pub mod Described
pub mod Stored
pub mod Resume
pub mod Names
pub mod Checkpoint
pub mod Revert
pub mod Execute
pub mod Atomic
pub mod Main
use tax_bro.Prelude.{
  ℕ, zero, suc, ◌+◌, ◌-◌, Bool, true, false, List, [], ◌∷◌, ◌++◌, Option, none, some, length, take,
  drop, get_elem?, min, nat_eq, ltb, leb, if◌then◌else◌, Outcome, ok, fault, out_of_range, ◌>>=◌,
}
use tax_bro.Prelude.Int.{ℤ, pos, negsuc, abs}
use tax_bro.Text.{Bytes, codes, has_prefix, has_suffix, bytes_eq}
use tax_bro.Text.Split.{split}
use mathlib.Core.List.{reverse}

-- `"up"` and `"down"`, the two values of the string.
pub data Direction : Type 0 where
  up down : Direction

pub record MigrationsOpts : Type 0 where
  pub latest : Bool
  pub zero_all : Bool
  pub steps : ℤ

abbrev pub suffix_of : Direction → Bytes
suffix_of up = codes ".up.sql"
suffix_of down = codes ".down.sql"

-- `loadMigrations`, of the file names that the walk visits, in its order.
unfoldable pub load_migrations : List Bytes → Direction → List Bytes
load_migrations [] direction = []
load_migrations (n ∷ names) direction =
    let rest = load_migrations names direction in
    if has_suffix n (suffix_of direction) then n ∷ rest else rest

-- `slices.IndexFunc`
unfoldable pub index_func : (Bytes → Bool) → List Bytes → Option ℕ
index_func p [] = none
index_func p (x ∷ xs) =
    if p x then some 0 else elim (index_func p xs) [ none ↦ none | some i ↦ some (suc i) ]

abbrev pub is_down : Direction → Bool
is_down up = false
is_down down = true

-- `xs[i:]`
abbrev pub slice_from : ℕ → List Bytes → Outcome (List Bytes)
slice_from i xs = if leb i (length xs) then ok (drop i xs) else fault out_of_range

-- `xs[:n]`
abbrev pub slice_to : ℕ → List Bytes → Outcome (List Bytes)
slice_to n xs = if leb n (length xs) then ok (take n xs) else fault out_of_range

-- The first two steps: the order, and the cut at the checkpoint.
unfoldable pub after_checkpoint : List Bytes → Direction → Bytes → Outcome (List Bytes)
unfolding index_func
after_checkpoint migrations direction checkpoint =
    let ordered = if is_down direction then reverse migrations else migrations in
    if bytes_eq checkpoint []
    then ok ordered
    else elim (index_func (λ filename. has_prefix filename checkpoint) ordered) [
      | none ↦ ok ordered
      | some idx ↦ slice_from (if is_down direction then idx else suc idx) ordered
    ]

-- `executableMigrations[:int(s)]`, with `s` the smaller of the length and the steps without sign.
unfoldable pub limit_steps : ℤ → List Bytes → Outcome (List Bytes)
limit_steps (pos zero) executable = ok executable
limit_steps steps executable = slice_to (min (length executable) (abs steps)) executable

-- `xs[len(xs)-1]`
unfoldable pub last_of : List Bytes → Outcome Bytes
last_of [] = fault out_of_range
last_of (x ∷ []) = ok x
last_of (x ∷ y ∷ xs) = last_of (y ∷ xs)

-- The name in front of the one at the index found.
abbrev pub name_before : Option ℕ → List Bytes → Outcome Bytes
name_before none migrations = ok []
name_before (some zero) migrations = ok []
name_before (some (suc i)) migrations = elim (get_elem? migrations i) [
  | none ↦ fault out_of_range
  | some name ↦ ok name
]

-- The name of the migration that the database stands at afterwards.
unfoldable pub new_checkpoint : Bool → Direction → List Bytes → List Bytes → Outcome Bytes
unfolding last_of index_func
new_checkpoint zero_all direction migrations executable =
    if zero_all
    then ok []
    else if is_down direction
    then (do
      last ← last_of executable
      name_before (index_func (λ m. bytes_eq m last) migrations) migrations)
    else last_of executable

-- `strings.Split(newCheckpoint, ".")[0]`
unfoldable pub base_name : Bytes → Outcome Bytes
base_name name = elim (split name (codes ".")) [ [] ↦ fault out_of_range | part ∷ parts ↦ ok part ]

-- The rest of `prepareMigrations`, of the names that are left.
unfoldable pub plan_remaining :
    List Bytes → Direction → MigrationsOpts → List Bytes → Outcome (Bytes × List Bytes)
plan_remaining migrations direction opts [] = ok ([], [])
plan_remaining migrations direction opts (x ∷ xs) = do
  executable ← limit_steps opts.steps (x ∷ xs)
  name ← new_checkpoint opts.zero_all direction migrations executable
  base ← base_name name
  ok (base, executable)

unfoldable pub prepare_migrations :
    List Bytes → Direction → Bytes → MigrationsOpts → Outcome (Bytes × List Bytes)
unfolding plan_remaining
prepare_migrations migrations direction checkpoint opts = do
  remaining ← after_checkpoint migrations direction checkpoint
  plan_remaining migrations direction opts remaining

-- `main`: the direction of the flags.
unfoldable pub direction_of : MigrationsOpts → Direction
direction_of opts =
    let forward : Bool = elim opts.steps [ pos n ↦ ltb 0 n | negsuc n ↦ false ] in
    if opts.latest then up else if forward then up else down
