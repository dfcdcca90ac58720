-- ===== src/Web/Start.antt =====
-- `main` of cmd/app/main.go up to the server, with the opening of the database by `RegisterDb` of
-- view/middlewares/db.go.
use tax_bro.Prelude.{
  ◌<◌, ◌≡◌, List, [], ◌∷◌, String, length, ltb, Outcome, ok, ok-injective, >>=-eq-ok, ◌>>=◌, assert,
  must, must-eq-ok, Fallible, value, arith, All,
}
use tax_bro.Text.{Bytes, codes}
use tax_bro.Web.{Accounts, Github}
use tax_bro.Web.App.{load_and_validate_env, validate_env}

-- `load_env` is `godotenv.Load`, `join` is `path.Join`, `open_db` is `sqlx.Open` of a PostgreSQL
-- database, and `github` is what the handlers use of net/http and encoding/json.
pub record Platform : Type 1 where
  pub load_env : Fallible (Unit {0})
  pub getenv : String → Bytes
  pub open_db : Bytes → Fallible Accounts
  pub getwd : Fallible Bytes
  pub join : Bytes → Bytes → Bytes
  pub github : Github

-- What the server serves: the routes over the database and GitHub, and a folder of assets.
pub record Server : Type 1 where
  pub db : Accounts
  pub github : Github
  pub assets : Bytes
  pub address : Bytes

abbrev pub env_keys : List String
env_keys = "GITHUB_CLIENT_ID" ∷ "GITHUB_CLIENT_SECRET" ∷ "DB_URL" ∷ []

-- `RegisterDb`, when it is called.
abbrev pub opened_db : Platform → Outcome Accounts
opened_db platform = must (platform.open_db (platform.getenv "DB_URL"))

-- The settings that the handlers read from the environment.
abbrev pub settings_of : Platform → Github
settings_of platform = record platform.github {
  client_id = platform.getenv "GITHUB_CLIENT_ID";
  client_secret = platform.getenv "GITHUB_CLIENT_SECRET";
}

unfoldable pub start : Platform → Outcome Server
unfolding load_and_validate_env
start platform = do
  _ ← load_and_validate_env platform.load_env platform.getenv env_keys
  db ← opened_db platform
  dir ← must platform.getwd
  ok (record {
    db = db;
    github = settings_of platform;
    assets = platform.join dir (codes "view/assets");
    address = codes ":3000";
  })

is_set : (s : Bytes) → assert (ltb 0 (length s)) ≡ ok tt → 0 < length s
is_set [] h = cc
is_set (c ∷ s) h = omega arith

validate_env-All :
    (getenv : String → Bytes) (keys : List String)
    → validate_env getenv keys ≡ ok tt
    → All (λ k. 0 < length (getenv k)) keys
unfolding validate_env
validate_env-All getenv [] h = tt
validate_env-All getenv (k ∷ keys) h =
    let (_, here, rest) = >>=-eq-ok (assert (ltb 0 (length (getenv k)))) _ h in
    (is_set (getenv k) here, validate_env-All getenv keys rest)

-- If the application starts, all its settings are set, and it has the database of DB_URL.
pub start_lem :
    (platform : Platform) {server : Server}
    → start platform ≡ ok server
    → (0 < length server.github.client_id)
      × (0 < length server.github.client_secret)
      × (platform.open_db (platform.getenv "DB_URL") ≡ value server.db)
unfolding start load_and_validate_env
start_lem platform h =
    let (_, valid, h₁) =
      >>=-eq-ok (load_and_validate_env platform.load_env platform.getenv env_keys) _ h in
    let (_, loaded, checked) = >>=-eq-ok (must platform.load_env) _ valid in
    let (db, opened, h₂) = >>=-eq-ok (opened_db platform) _ h₁ in
    let (dir, here, h₃) = >>=-eq-ok (must platform.getwd) _ h₂ in
    let (id_set, (secret_set, _)) = validate_env-All platform.getenv env_keys checked in
    rw (← ok-injective h₃) (id_set, secret_set, must-eq-ok _ opened)
