-- ===== src/Migrate/Main.antt =====
-- `main` of cmd/migrate/main.go, behind its flags. The environment, the folder of the migrations and
-- the table `migration` are services.
use tax_bro.Prelude.{
  ◌≡◌, ◌∙◌, Bool, ◌&&◌, ◌||◌, not, List, [], ◌++◌, Outcome, ok, assert, ok-injective, must,
  must-eq-ok, >>=-eq-ok, Fallible, value, ◌>>=◌, ◌>>◌, if◌then◌else◌, ◌⊎◌, inl, inr, Bool-cases,
}
use tax_bro.Prelude.Int.{pos, int_eq}
use tax_bro.Text.{Bytes, bytes_eq}
use tax_bro.Migrate.{MigrationsOpts, is_down, direction_of, load_migrations, prepare_migrations}
use tax_bro.Migrate.Slices.{ordered}
use tax_bro.Migrate.Plan.{prepare_migrations-contiguous}
use tax_bro.Migrate.Described.{IsLeft, IsLimited, IsStored}
use tax_bro.Migrate.Execute.{Host, execute_migrations, Committed, execute_migrations-Committed}

-- "at least one flag needs to be set"
abbrev pub is_set : MigrationsOpts → Bool
is_set opts = not (int_eq opts.steps (pos 0)) || opts.zero_all || opts.latest

-- `migrationTable`. The empty name is also that of a table without a name.
pub record MigrationTable : Type 0 where
  pub is_there : Bool
  pub name : Bytes

-- `get_table` is what `Get` leaves in the struct, whose error is not looked at. `walk_dir` has the
-- names of the files below the folder, in the order of the walk.
pub record Site (host : Host) : Type 0 where
  pub db_url : Bytes
  pub open_db : Bytes → Fallible (Unit {0})
  pub has_filename : Bool
  pub walk_dir : Fallible (List Bytes)
  pub get_table : host.State → MigrationTable
  pub create_table : host.State → Fallible host.State

module _ (host : Host) where
  -- From the names on; an error of the run ends the process.
  abbrev pub migrate_from : MigrationsOpts → List Bytes → Bytes → host.State → Outcome host.State
  migrate_from opts names checkpoint st = do
    let migrations = load_migrations names (direction_of opts)
    (new_checkpoint, prepared) ← prepare_migrations migrations (direction_of opts) checkpoint opts
    (result, st') ← execute_migrations host prepared new_checkpoint st
    _ ← must result
    ok st'

  -- The table is made if it is not there.
  abbrev pub ensure_table : Site host → MigrationTable → host.State → Outcome host.State
  ensure_table site table st = if table.is_there then ok st else must (site.create_table st)

  unfoldable pub migrate : Site host → MigrationsOpts → host.State → Outcome host.State
  migrate site opts st = do
    assert (not (bytes_eq site.db_url []))
    assert (is_set opts)
    _ ← must (site.open_db site.db_url)
    assert site.has_filename
    let table = site.get_table st
    st₁ ← ensure_table site table st
    assert (not (bytes_eq table.name [] && is_down (direction_of opts)))
    names ← must site.walk_dir
    migrate_from opts names table.name st₁

  -- What a successful run did: an unbroken stretch of the direction's names that begins behind the
  -- checkpoint and is as long as the steps say was executed, and the name for it stored.
  abbrev pub Migrated : MigrationsOpts → List Bytes → Bytes → host.State → host.State → Type 0
  Migrated opts names checkpoint st st' =
      let direction = direction_of opts in
      let migrations = load_migrations names direction in
      (new_checkpoint : Bytes) × (executable front back : List Bytes) × (front
          ++ (executable ++ back)
        ≡ ordered direction migrations)
      × IsLeft direction checkpoint (ordered direction migrations) (executable ++ back)
      × IsLimited opts.steps executable back
      × IsStored opts.zero_all migrations direction executable new_checkpoint
      × Committed host executable new_checkpoint st st'

  migrate_from-Migrated :
      (opts : MigrationsOpts) (names : List Bytes) (checkpoint : Bytes) (st st' : host.State)
      → migrate_from opts names checkpoint st ≡ ok st'
      → Migrated opts names checkpoint st st'
  migrate_from-Migrated opts names checkpoint st st' h =
      let direction = direction_of opts in
      let migrations = load_migrations names direction in
      let (base, executable, front, back, plan, whole, is_left, limits, stores) =
        prepare_migrations-contiguous migrations direction checkpoint opts in
      let h₃ : (do
        (result, st₁) ← execute_migrations host executable base st
        _ ← must result
        ok st₁)
          ≡ ok st' =
        rw plan at h in
      let ((result, st₁), ran, h₄) = >>=-eq-ok (execute_migrations host executable base st) _ h₃ in
      let (_, succeeded, done) = >>=-eq-ok (must result) _ h₄ in
      (
        base,
        executable,
        front,
        back,
        whole,
        is_left,
        limits,
        stores,
        execute_migrations-Committed host executable base st st'
            (ran ∙ (λ i. ok (must-eq-ok result succeeded i, ok-injective done i))),
      )

  ensure_table-kept :
      (site : Site host) (table : MigrationTable) (st st' : host.State)
      → ensure_table site table st ≡ ok st'
      → (st ≡ st') ⊎ (site.create_table st ≡ value st')
  ensure_table-kept site table st st' h = elim (Bool-cases table.is_there) [
    | inl there ↦ inl (ok-injective (rw there at h))
    | inr missing ↦ inr (must-eq-ok _ (rw missing at h))
  ]

  -- If the command succeeds, then it made the table or not, and then it ran an unbroken stretch of
  -- the direction's files below the folder, in the direction's order, at least one, each read and
  -- run without an error. The stretch begins behind the checkpoint that the table had and is as
  -- long as the steps say, or goes to the end. In the same transaction, which was committed, the
  -- name was stored that `IsStored` says.
  pub migrate_lem :
      (site : Site host) (opts : MigrationsOpts) (st st' : host.State)
      → migrate site opts st ≡ ok st'
      → (st₁ : host.State) × (names : List Bytes) × ((st ≡ st₁)
          ⊎ (site.create_table st ≡ value st₁))
        × (site.walk_dir ≡ value names)
        × Migrated opts names (site.get_table st).name st₁ st'
  unfolding migrate
  migrate_lem site opts st st' h =
      let table = site.get_table st in
      let (_, has_url, h₁) = >>=-eq-ok (assert (not (bytes_eq site.db_url []))) _ h in
      let (_, some_flag, h₂) = >>=-eq-ok (assert (is_set opts)) _ h₁ in
      let (_, opened, h₃) = >>=-eq-ok (must (site.open_db site.db_url)) _ h₂ in
      let (_, named, h₄) = >>=-eq-ok (assert site.has_filename) _ h₃ in
      let (st₁, ready, h₅) = >>=-eq-ok (ensure_table site table st) _ h₄ in
      let (_, may_go, h₆) =
        >>=-eq-ok (assert (not (bytes_eq table.name [] && is_down (direction_of opts)))) _ h₅ in
      let (names, walked, h₇) = >>=-eq-ok (must site.walk_dir) _ h₆ in
      (
        st₁,
        names,
        ensure_table-kept site table st st₁ ready,
        must-eq-ok _ walked,
        migrate_from-Migrated opts names table.name st₁ st' h₇,
      )
