-- ===== src/Tests/Revert.antt =====
-- cmd/migrate/main.go with the names of db_migrations that have files in both directions.
use tax_bro.Prelude.{◌≡◌, refl, false, [], ◌∷◌, map, ok}
use tax_bro.Prelude.Int.{pos, negsuc}
use tax_bro.Text.{Bytes, codes}
use tax_bro.Migrate.{MigrationsOpts, up, down, prepare_migrations}
use tax_bro.Migrate.Names.{file, IsName, IsClear}
use tax_bro.Migrate.Revert.{prepare_migrations-revert}
use tax_bro.Tests.Runs.{tail-injective}

abbrev setup : Bytes
setup = codes "00_setup"

abbrev user : Bytes
user = codes "01_user"

abbrev txs : Bytes
txs = codes "02_txs"

setup-IsName : IsName (user ∷ txs ∷ []) setup
setup-IsName = record { some_name = refl; no_dot = refl; apart = λ direction. (refl, (refl, tt)) }

user-IsName : IsName (setup ∷ txs ∷ []) user
user-IsName = record { some_name = refl; no_dot = refl; apart = λ direction. (refl, (refl, tt)) }

txs-IsName : IsName (setup ∷ user ∷ []) txs
txs-IsName = record { some_name = refl; no_dot = refl; apart = λ direction. (refl, (refl, tt)) }

clear : IsClear (setup ∷ user ∷ txs ∷ [])
clear [] name back e = let (h, t) = tail-injective e in rw (← h, ← t) setup-IsName
clear (a ∷ []) name back e =
    let (h, t) = tail-injective e in
    let (h', t') = tail-injective t in rw (← h, ← h', ← t') user-IsName
clear (a ∷ b ∷ []) name back e =
    let (h, t) = tail-injective e in
    let (h', t') = tail-injective t in
    let (h'', t'') = tail-injective t' in rw (← h, ← h', ← h'', ← t'') txs-IsName
clear (a ∷ b ∷ c ∷ []) name back e =
    absurd (cc ((tail-injective (tail-injective (tail-injective e).1).1).1))
clear (a ∷ b ∷ c ∷ d ∷ front) name back e =
    absurd (cc ((tail-injective (tail-injective (tail-injective e).1).1).1))

abbrev two_up : MigrationsOpts
two_up = record { latest = false; zero_all = false; steps = pos 2 }

-- Steps downwards may be given as a negative number.
abbrev two_down : MigrationsOpts
two_down = record { latest = false; zero_all = false; steps = negsuc 1 }

prepare_migrations-revert_example :
    (prepare_migrations (map (file up) (setup ∷ user ∷ txs ∷ [])) up setup two_up
      ≡ ok (txs, map (file up) (user ∷ txs ∷ [])))
    × (prepare_migrations (map (file down) (setup ∷ user ∷ txs ∷ [])) down txs two_down
        ≡ ok (setup, map (file down) (txs ∷ user ∷ [])))
prepare_migrations-revert_example =
    prepare_migrations-revert (setup ∷ []) user (txs ∷ []) [] clear two_up two_down refl refl refl
      refl
