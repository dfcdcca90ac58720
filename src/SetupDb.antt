-- ===== src/SetupDb.antt =====
-- `SetupDb` of pkg/test_utils/db.go: a database in a container, with the schema of db_migrations.
use tax_bro.Prelude.{
  ℕ, ◌≡◌, refl, true, false, List, [], ◌∷◌, ◌++◌, map, Outcome, ok, ok-injective, >>=-eq-ok, must,
  must-eq-ok, Fallible, value, ◌>>=◌,
}
use tax_bro.Prelude.Int.{pos}
use tax_bro.Text.{Bytes, codes}
use tax_bro.Migrate.{up, MigrationsOpts, prepare_migrations}
use tax_bro.Migrate.Names.{file}

-- The settings that are given to `postgres.Run`.
pub record Settings : Type 0 where
  pub image : Bytes
  pub database : Bytes
  pub username : Bytes
  pub password : Bytes
  pub init_scripts : List Bytes
  pub ready_log : Bytes
  pub occurrence : ℕ
  pub startup_seconds : ℕ

-- What testcontainers and sqlx do. `close` is without its error, which is not looked at, and `join` is
-- filepath.Join.
pub record Docker : Type 1 where
  pub State : Type 0
  pub Container : Type 0
  pub Db : Type 0
  pub run : Settings → State → Fallible (Container × State)
  pub connection_string : Container → Bytes → State → Fallible Bytes
  pub open_db : Bytes → Fallible Db
  pub close : Db → State → State
  pub terminate : Container → State → Fallible State
  pub join : Bytes → Bytes → Bytes

abbrev pub init_scripts : List Bytes
init_scripts =
    codes "../../../db_migrations/00_setup.up.sql"
    ∷ codes "../../../db_migrations/01_user.up.sql"
    ∷ codes "../../../db_migrations/02_txs.up.sql"
    ∷ codes "../../../db_migrations/03_user_txs.up.sql"
    ∷ []

module _ (docker : Docker) where
  abbrev pub settings : Bytes → Settings
  settings fp = record {
    image = codes "docker.io/postgres:16-alpine";
    database = codes "db";
    username = codes "user";
    password = codes "pwd";
    init_scripts = map (docker.join fp) init_scripts;
    ready_log = codes "database system is ready to accept connections";
    occurrence = 2;
    startup_seconds = 5;
  }

  -- The function of `t.Cleanup`.
  abbrev pub cleanup : docker.Db → docker.Container → docker.State → Outcome docker.State
  cleanup db container st = must (docker.terminate container (docker.close db st))

  -- `fp` is the file of the function, as `runtime.Caller` gives it. The result is the database and what
  -- is run at the end of the test.
  unfoldable pub setup_db :
      Bytes
      → docker.State
      → Outcome ((docker.Db × (docker.State → Outcome docker.State)) × docker.State)
  setup_db fp st = do
    (container, st₁) ← must (docker.run (settings fp) st)
    db_url ← must (docker.connection_string container (codes "sslmode=disable") st₁)
    db ← must (docker.open_db db_url)
    ok ((db, cleanup db container), st₁)

  -- A database that is set up is that of a container that was started with the settings, and its
  -- cleanup terminates that container.
  pub setup_db_lem :
      (fp : Bytes) (st : docker.State)
      {r : (docker.Db × (docker.State → Outcome docker.State)) × docker.State}
      → setup_db fp st ≡ ok r
      → (container : docker.Container) × (docker.run (settings fp) st ≡ value (container, r.1))
        × ((st' : docker.State)
            → r.0.1 st' ≡ must (docker.terminate container (docker.close r.0.0 st')))
  unfolding setup_db
  setup_db_lem fp st h =
      let ((container, st₁), ran, h₁) = >>=-eq-ok (must (docker.run (settings fp) st)) _ h in
      let (url, connects, h₂) =
        >>=-eq-ok (must (docker.connection_string container (codes "sslmode=disable") st₁)) _ h₁ in
      let (db, opened, h₃) = >>=-eq-ok (must (docker.open_db url)) _ h₂ in
      rw (← ok-injective h₃) (container, must-eq-ok _ ran, λ st'. refl)

-- The names of db_migrations.
abbrev pub names : List Bytes
names = codes "00_setup" ∷ codes "01_user" ∷ codes "02_txs" ∷ codes "03_user_txs" ∷ []

abbrev latest : MigrationsOpts
latest = record { latest = true; zero_all = false; steps = pos 0 }

-- The scripts are the migrations that a run of all upwards executes, in their order.
pub init_scripts-prepare_migrations :
    (init_scripts ≡ map (λ name. codes "../../../db_migrations/" ++ name) (map (file up) names))
    × (prepare_migrations (map (file up) names) up [] latest
        ≡ ok (codes "03_user_txs", map (file up) names))
unfolding prepare_migrations tax_bro.Migrate.plan_remaining tax_bro.Migrate.after_checkpoint
    tax_bro.Migrate.new_checkpoint tax_bro.Migrate.limit_steps tax_bro.Migrate.last_of
    tax_bro.Migrate.base_name tax_bro.Text.Split.split tax_bro.Text.Split.split_from
init_scripts-prepare_migrations = (refl, refl)
