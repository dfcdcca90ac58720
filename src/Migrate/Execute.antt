-- ===== src/Migrate/Execute.antt =====
-- `executeMigrations` of cmd/migrate/main.go, over the file system and the database.
use tax_bro.Prelude.{
  ◌≡◌, ◌≢◌, refl, ap, ◌∙◌, List, [], ◌∷◌, if◌then◌else◌, Outcome, ok, ok-injective, must,
  must-eq-ok, >>=-eq-ok, subst, Fallible, value, error, ◌>>=◌, Option, none, some,
}
use tax_bro.Text.{Bytes, bytes_eq}

-- `begin` gives a transaction, in which `exec` runs the text of a migration and `set_name` is the
-- `UPDATE` of the table `migration`, to NULL for `none`: each may fail, and goes on in the transaction.
-- `read` is `os.ReadFile` in the migrations' folder.
pub record Host : Type 1 where
  pub State : Type 0
  pub Tx : Type 0
  pub read : Bytes → Fallible Bytes
  pub begin : State → Fallible Tx
  pub exec : Bytes → Tx → Fallible (Unit {0}) × Tx
  pub set_name : Option Bytes → Tx → Fallible (Unit {0}) × Tx
  pub commit : Tx → Fallible State
  pub rollback : Tx → State

-- What PostgreSQL promises of a transaction: a rollback brings the state that it began with, whatever
-- was run in it, if no migration's text ends the transaction itself.
pub record IsTransactional (host : Host) : Type 0 where
  pub base : host.Tx → host.State
  pub begun : (st : host.State) (tx : host.Tx) → host.begin st ≡ value tx → base tx ≡ st
  pub executed : (content : Bytes) (tx : host.Tx) → base (host.exec content tx).1 ≡ base tx
  pub named : (name : Option Bytes) (tx : host.Tx) → base (host.set_name name tx).1 ≡ base tx
  pub rolled_back : (tx : host.Tx) → host.rollback tx ≡ base tx

-- A migration is read and run, and then the rest.
pub data Ran (host : Host) : List Bytes → host.Tx → host.Tx → Type 0 where
  all_run : {tx : host.Tx} → Ran host [] tx tx
  run :
      {filename content : Bytes} {filenames : List Bytes} {tx tx' tx'' : host.Tx}
      → host.read filename ≡ value content
      → host.exec content tx ≡ (value tt, tx')
      → Ran host filenames tx' tx''
      → Ran host (filename ∷ filenames) tx tx''

module _ (host : Host) where
  -- A migration that failed ends the loop.
  abbrev pub ran_by :
      (host.Tx → Fallible (Unit {0}) × host.Tx)
      → Fallible (Unit {0}) × host.Tx
      → Fallible (Unit {0}) × host.Tx
  ran_by rest (error, tx) = (error, tx)
  ran_by rest (value _, tx) = rest tx

  -- So does a file that cannot be read.
  abbrev pub read_by :
      host.Tx
      → (host.Tx → Fallible (Unit {0}) × host.Tx)
      → Fallible Bytes
      → Fallible (Unit {0}) × host.Tx
  read_by tx rest error = (error, tx)
  read_by tx rest (value content) = ran_by rest (host.exec content tx)

  -- The loop over the file names.
  unfoldable pub run_all : List Bytes → host.Tx → Fallible (Unit {0}) × host.Tx
  run_all [] tx = (value tt, tx)
  run_all (filename ∷ filenames) tx = read_by tx (run_all filenames) (host.read filename)

  abbrev pub name_of : Bytes → Option Bytes
  name_of new_checkpoint = if bytes_eq new_checkpoint [] then none else some new_checkpoint

  -- The commit, whose error is asserted away, or the deferred rollback, which does nothing behind a
  -- commit.
  abbrev pub store_name : Fallible (Unit {0}) × host.Tx → Outcome (Fallible (Unit {0}) × host.State)
  store_name (error, tx) = ok (error, host.rollback tx)
  store_name (value _, tx) = do st' ← must (host.commit tx); ok (value tt, st')

  -- What follows the loop, from the result of the loop.
  abbrev pub finish :
      Bytes → Fallible (Unit {0}) × host.Tx → Outcome (Fallible (Unit {0}) × host.State)
  finish new_checkpoint (error, tx) = ok (error, host.rollback tx)
  finish new_checkpoint (value _, tx) = store_name (host.set_name (name_of new_checkpoint) tx)

  -- The result is the `error` that is returned, and the database afterwards.
  unfoldable pub execute_migrations :
      List Bytes → Bytes → host.State → Outcome (Fallible (Unit {0}) × host.State)
  unfolding run_all
  execute_migrations [] new_checkpoint st = ok (error, st)
  execute_migrations (filename ∷ filenames) new_checkpoint st = do
    tx ← must (host.begin st)
    finish new_checkpoint (run_all (filename ∷ filenames) tx)

  -- There was a migration to run, all were read and run in order, and the checkpoint was stored, in
  -- the one transaction that was committed.
  abbrev pub Committed : List Bytes → Bytes → host.State → host.State → Type 0
  Committed migrations new_checkpoint st st' =
      (migrations ≢ [])
      × ((tx tx₁ tx₂ : host.Tx) × (host.begin st ≡ value tx)
          × Ran host migrations tx tx₁
          × (host.set_name (name_of new_checkpoint) tx₁ ≡ (value tt, tx₂))
          × (host.commit tx₂ ≡ value st'))

  -- How a run can end: with an error and the database as it was, or without one.
  abbrev pub Ended : List Bytes → Bytes → Fallible (Unit {0}) → host.State → host.State → Type 0
  Ended migrations new_checkpoint error st st' = st' ≡ st
  Ended migrations new_checkpoint (value _) st st' = Committed migrations new_checkpoint st st'

  ran_by-Ran :
      (rest : host.Tx → Fallible (Unit {0}) × host.Tx) {filename content : Bytes}
      {filenames : List Bytes} {tx tx' : host.Tx} (r : Fallible (Unit {0}) × host.Tx)
      → ((tx : host.Tx) → rest tx ≡ (value tt, tx') → Ran host filenames tx tx')
      → host.read filename ≡ value content
      → host.exec content tx ≡ r
      → ran_by rest r ≡ (value tt, tx')
      → Ran host (filename ∷ filenames) tx tx'
  ran_by-Ran rest (error, tx₁) behind reads ran e = absurd (cc (ap (λ r. r.0) e))
  ran_by-Ran rest (value _, tx₁) behind reads ran e = run reads ran (behind tx₁ e)

  read_by-Ran :
      (rest : host.Tx → Fallible (Unit {0}) × host.Tx) {filename : Bytes} {filenames : List Bytes}
      {tx tx' : host.Tx} (m : Fallible Bytes)
      → ((tx : host.Tx) → rest tx ≡ (value tt, tx') → Ran host filenames tx tx')
      → host.read filename ≡ m
      → read_by tx rest m ≡ (value tt, tx')
      → Ran host (filename ∷ filenames) tx tx'
  read_by-Ran rest error behind reads e = absurd (cc (ap (λ r. r.0) e))
  read_by-Ran rest {tx = tx} (value content) behind reads e =
      ran_by-Ran rest (host.exec content tx) behind reads refl e

  run_all-Ran :
      (filenames : List Bytes) (tx tx' : host.Tx)
      → run_all filenames tx ≡ (value tt, tx')
      → Ran host filenames tx tx'
  unfolding run_all
  run_all-Ran [] tx tx' e = subst (Ran host [] tx) (ap (λ r. r.1) e) all_run
  run_all-Ran (filename ∷ filenames) tx tx' e =
      read_by-Ran (run_all filenames) (host.read filename) (λ tx₁. run_all-Ran filenames tx₁ tx')
        refl e

  store_name-Committed :
      (migrations : List Bytes) (new_checkpoint : Bytes) (st st' : host.State) (tx tx₁ : host.Tx)
      (named : Fallible (Unit {0}) × host.Tx)
      → migrations ≢ []
      → host.begin st ≡ value tx
      → Ran host migrations tx tx₁
      → host.set_name (name_of new_checkpoint) tx₁ ≡ named
      → store_name named ≡ ok (value tt, st')
      → Committed migrations new_checkpoint st st'
  store_name-Committed migrations new_checkpoint st st' tx tx₁ (error, tx₂) some_left begun ran
        named e =
      absurd (cc (ap (λ r. r.0) (ok-injective e)))
  store_name-Committed migrations new_checkpoint st st' tx tx₁ (value _, tx₂) some_left begun ran
        named e =
      let (st₁, commits, same) = >>=-eq-ok (must (host.commit tx₂)) _ e in
      let committed = must-eq-ok (host.commit tx₂) commits in
      (
        some_left,
        (tx, tx₁, tx₂, begun, ran, named, committed ∙ ap (λ r. value r.1) (ok-injective same)),
      )

  finish-Committed :
      (migrations : List Bytes) (new_checkpoint : Bytes) (st st' : host.State) (tx : host.Tx)
      (r : Fallible (Unit {0}) × host.Tx)
      → migrations ≢ []
      → host.begin st ≡ value tx
      → run_all migrations tx ≡ r
      → finish new_checkpoint r ≡ ok (value tt, st')
      → Committed migrations new_checkpoint st st'
  finish-Committed migrations new_checkpoint st st' tx (error, tx₁) some_left begun ran e =
      absurd (cc (ap (λ r. r.0) (ok-injective e)))
  finish-Committed migrations new_checkpoint st st' tx (value _, tx₁) some_left begun ran e =
      store_name-Committed migrations new_checkpoint st st' tx tx₁ _ some_left begun
        (run_all-Ran migrations tx tx₁ ran) refl e

  -- A call without an error committed.
  pub execute_migrations-Committed :
      (migrations : List Bytes) (new_checkpoint : Bytes) (st st' : host.State)
      → execute_migrations migrations new_checkpoint st ≡ ok (value tt, st')
      → Committed migrations new_checkpoint st st'
  unfolding execute_migrations
  execute_migrations-Committed [] new_checkpoint st st' e =
      absurd (cc (ap (λ r. r.0) (ok-injective e)))
  execute_migrations-Committed (filename ∷ filenames) new_checkpoint st st' e =
      let (tx, begun, rest) = >>=-eq-ok (must (host.begin st)) _ e in
      finish-Committed (filename ∷ filenames) new_checkpoint st st' tx _ (λ p. cc)
        (must-eq-ok (host.begin st) begun) refl rest
