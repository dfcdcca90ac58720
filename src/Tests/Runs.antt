-- ===== src/Tests/Runs.antt =====
-- cmd/migrate/main.go with two migrations.
use tax_bro.Prelude.{
  sym, value-injective, Bool-cases, inl, inr, if◌then◌else◌, ◌≡◌, refl, ap, ◌∙◌, true, false, List,
  [], ◌∷◌, ◌++◌, Option, none, some, value, error, ok, ok-injective, ◌⊎◌,
}
use tax_bro.Prelude.Int.{pos}
use tax_bro.Text.{Bytes, codes, bytes_eq, has_prefix}
use tax_bro.Migrate.{
  MigrationsOpts, Direction, up, down, index_func, base_name, after_checkpoint, prepare_migrations,
}
use tax_bro.Migrate.Slices.{ordered}
use tax_bro.Migrate.Plan.{prepare_migrations-contiguous}
use tax_bro.Migrate.Resume.{IsUnambiguous, prepare_migrations-resume}
use tax_bro.Migrate.{direction_of, load_migrations}
use tax_bro.Migrate.Main.{Site, Migrated, migrate, migrate_lem}
use tax_bro.Migrate.Described.{IsLeft, IsLimited, IsStored}
use tax_bro.Migrate.Execute.{Host, IsTransactional, execute_migrations, Ended}
use tax_bro.Migrate.Atomic.{execute_migrations_atomic}

abbrev users : Bytes
users = codes "1_users.up.sql"

abbrev wallets : Bytes
wallets = codes "2_wallets.up.sql"

abbrev files : List Bytes
files = users ∷ wallets ∷ []

abbrev one_step : MigrationsOpts
one_step = record { latest = false; zero_all = false; steps = pos 1 }

abbrev all_up : MigrationsOpts
all_up = record { latest = true; zero_all = false; steps = pos 0 }

pub tail-injective {ℓ} :
    {A : Type ℓ} {x y : A} {xs ys : List A} → x ∷ xs ≡ y ∷ ys → (x ≡ y) × (xs ≡ ys)
tail-injective h = (cc, cc)

unambiguous : IsUnambiguous files
unfolding base_name index_func tax_bro.Text.Split.split
unambiguous [] name back base e based =
    let first = (tail-injective e).0 in
    let same : codes "1_users" ≡ base = ok-injective (ap base_name first ∙ based) in
    rw (← same) (refl, refl)
unambiguous (x ∷ []) name back base e based =
    let second = (tail-injective (tail-injective e).1).0 in
    let same : codes "2_wallets" ≡ base = ok-injective (ap base_name second ∙ based) in
    rw (← same) (refl, refl)
unambiguous (x ∷ y ∷ []) name back base e based =
    absurd (cc ((tail-injective (tail-injective e).1).1))
unambiguous (x ∷ y ∷ z ∷ front) name back base e based =
    absurd (cc ((tail-injective (tail-injective e).1).1))

stepped : prepare_migrations files up [] one_step ≡ ok (codes "1_users", users ∷ [])
unfolding prepare_migrations after_checkpoint tax_bro.Migrate.new_checkpoint
    tax_bro.Migrate.limit_steps base_name tax_bro.Text.Split.split
stepped = refl

prepare_migrations-resume_example :
    (c₁ c₂ : Bytes) × (rest : List Bytes) × (prepare_migrations files up (codes "1_users") all_up
      ≡ ok (c₁, rest))
    × (prepare_migrations files up [] all_up ≡ ok (c₂, (users ∷ []) ++ rest))
    × ((rest ≡ []) ⊎ (c₁ ≡ c₂))
prepare_migrations-resume_example =
    prepare_migrations-resume files [] (codes "1_users") (users ∷ []) one_step all_up refl stepped
      (λ e. cc) unambiguous refl refl

prepare_migrations-contiguous_example :
    (base : Bytes) × (executable front back : List Bytes) × (prepare_migrations files down
        (codes "2_wallets")
        one_step
      ≡ ok (base, executable))
    × (front ++ (executable ++ back) ≡ ordered down files)
    × IsLeft down (codes "2_wallets") (ordered down files) (executable ++ back)
    × IsLimited (pos 1) executable back
    × IsStored false files down executable base
prepare_migrations-contiguous_example =
    prepare_migrations-contiguous files down (codes "2_wallets") one_step

-- The state is what was executed and the stored checkpoint, and a transaction has the state that it
-- began with, and its own. A migration with the text "broken" fails.
abbrev Tables : Type 0
Tables = List Bytes × Option Bytes

abbrev host : Host
host = record {
  State = Tables;
  Tx = Tables × Tables;
  read = λ name. value name;
  begin = λ st. value (st, st);
  exec = λ content tx.
      if bytes_eq content (codes "broken")
      then (error, tx)
      else (value tt, (tx.0, (tx.1.0 ++ content ∷ [], tx.1.1)));
  set_name = λ name tx. (value tt, (tx.0, (tx.1.0, name)));
  commit = λ tx. value tx.1;
  rollback = λ tx. tx.0;
}

host-IsTransactional : IsTransactional host
host-IsTransactional = record {
  base = λ tx. tx.0;
  begun = λ st tx e. ap (λ t. t.0) (sym (value-injective e));
  executed = λ content tx. elim (Bool-cases (bytes_eq content (codes "broken"))) [
    | inl broken ↦ rw broken refl
    | inr fine ↦ rw fine refl
  ];
  named = λ name tx. refl;
  rolled_back = λ tx. refl;
}

-- The first migration is run, and rolled back when the second fails.
failed :
    execute_migrations host (users ∷ codes "broken" ∷ []) (codes "broken") ([], none)
    ≡ ok (error, ([], none))
unfolding execute_migrations tax_bro.Migrate.Execute.run_all
failed = refl

execute_migrations_atomic_example :
    Ended host (users ∷ codes "broken" ∷ []) (codes "broken") error ([], none) ([], none)
execute_migrations_atomic_example =
    execute_migrations_atomic host host-IsTransactional (users ∷ codes "broken" ∷ [])
      (codes "broken") ([], none) ([], none) error failed

abbrev found : List Bytes
found = users ∷ codes "1_users.down.sql" ∷ wallets ∷ []

-- The table is there, and nothing was executed yet.
abbrev site : Site host
site = record {
  db_url = codes "postgres://";
  open_db = λ url. value tt;
  has_filename = true;
  walk_dir = value found;
  get_table = λ st. record { is_there = true; name = [] };
  create_table = λ st. error;
}

migrated : migrate host site all_up ([], none) ≡ ok (files, some (codes "2_wallets"))
unfolding migrate direction_of prepare_migrations after_checkpoint load_migrations
    tax_bro.Migrate.new_checkpoint tax_bro.Migrate.limit_steps base_name tax_bro.Text.Split.split
    execute_migrations
migrated = refl

migrate_lem_example :
    (st₁ : List Bytes × Option Bytes) × (names : List Bytes) × ((([], none) ≡ st₁)
      ⊎ (site.create_table ([], none) ≡ value st₁))
    × (site.walk_dir ≡ value names)
    × Migrated host all_up names [] st₁ (files, some (codes "2_wallets"))
migrate_lem_example =
    migrate_lem host site all_up ([], none) (files, some (codes "2_wallets")) migrated
