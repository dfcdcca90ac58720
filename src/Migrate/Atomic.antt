-- ===== src/Migrate/Atomic.antt =====
-- `executeMigrations` of cmd/migrate/main.go ends with all or nothing.
use tax_bro.Prelude.{
  ◌≡◌, refl, sym, ap, ◌∙◌, List, [], ◌∷◌, ok, ok-injective, must, must-eq-ok, >>=-eq-ok, Fallible,
  value, error,
}
use tax_bro.Text.{Bytes}
use tax_bro.Migrate.Execute.{
  Host, IsTransactional, ran_by, read_by, run_all, store_name, finish, execute_migrations, Ended,
  execute_migrations-Committed,
}

module _ (host : Host) (law : IsTransactional host) where
  -- What is run in a transaction keeps the state that it began with.
  ran_by-base :
      (rest : host.Tx → Fallible (Unit {0}) × host.Tx) (r : Fallible (Unit {0}) × host.Tx)
      → ((tx : host.Tx) → law.base (rest tx).1 ≡ law.base tx)
      → law.base (ran_by host rest r).1 ≡ law.base r.1
  ran_by-base rest (error, tx) kept = refl
  ran_by-base rest (value _, tx) kept = kept tx

  read_by-base :
      (tx : host.Tx) (rest : host.Tx → Fallible (Unit {0}) × host.Tx) (m : Fallible Bytes)
      → ((tx : host.Tx) → law.base (rest tx).1 ≡ law.base tx)
      → law.base (read_by host tx rest m).1 ≡ law.base tx
  read_by-base tx rest error kept = refl
  read_by-base tx rest (value content) kept =
      ran_by-base rest (host.exec content tx) kept ∙ law.executed content tx

  run_all-base :
      (filenames : List Bytes) (tx : host.Tx) → law.base (run_all host filenames tx).1 ≡ law.base tx
  unfolding run_all
  run_all-base [] tx = refl
  run_all-base (filename ∷ filenames) tx =
      read_by-base tx (run_all host filenames) (host.read filename) (run_all-base filenames)

  store_name-base :
      (named : Fallible (Unit {0}) × host.Tx) (st' : host.State)
      → store_name host named ≡ ok (error, st')
      → law.base named.1 ≡ st'
  store_name-base (error, tx) st' e = sym (law.rolled_back tx) ∙ ap (λ r. r.1) (ok-injective e)
  store_name-base (value _, tx) st' e =
      let (st₁, commits, same) = >>=-eq-ok (must (host.commit tx)) _ e in
      absurd (cc (ap (λ r. r.0) (ok-injective same)))

  finish-base :
      (new_checkpoint : Bytes) (r : Fallible (Unit {0}) × host.Tx) (st' : host.State)
      → finish host new_checkpoint r ≡ ok (error, st')
      → law.base r.1 ≡ st'
  finish-base new_checkpoint (error, tx) st' e =
      sym (law.rolled_back tx) ∙ ap (λ r. r.1) (ok-injective e)
  finish-base new_checkpoint (value _, tx) st' e =
      sym (law.named _ tx) ∙ store_name-base (host.set_name _ tx) st' e

  -- All or nothing, over a database whose rollback brings back the state at the beginning: whenever the call returns, with an error the
  -- database is as it was, and without one there was a migration to run, each was read and run
  -- without an error, in order, and the checkpoint was stored, in the one transaction that was
  -- committed.
  pub execute_migrations_atomic :
      (migrations : List Bytes) (new_checkpoint : Bytes) (st st' : host.State)
      (r : Fallible (Unit {0}))
      → execute_migrations host migrations new_checkpoint st ≡ ok (r, st')
      → Ended host migrations new_checkpoint r st st'
  unfolding execute_migrations
  execute_migrations_atomic migrations new_checkpoint st st' (value _) e =
      execute_migrations-Committed host migrations new_checkpoint st st' e
  execute_migrations_atomic [] new_checkpoint st st' error e = ap (λ p. p.1) (sym (ok-injective e))
  execute_migrations_atomic (filename ∷ filenames) new_checkpoint st st' error e =
      let (tx, begun, rest) = >>=-eq-ok (must (host.begin st)) _ e in
      sym (
        sym (law.begun st tx (must-eq-ok (host.begin st) begun))
        ∙ sym (run_all-base (filename ∷ filenames) tx)
        ∙ finish-base new_checkpoint (run_all host (filename ∷ filenames) tx) st' rest)
