-- ===== src/Migrate/Revert.antt =====
-- `prepareMigrations` of cmd/migrate/main.go upwards and back: over a folder with two files for each
-- name, `front ++ ((x ∷ xs) ++ back)`.
use mathlib.Core.List.{reverse, reverse-append, reverse-cons}
use tax_bro.Prelude.{
  ◌≡◌, refl, sym, ap, ◌∙◌, Bool, false, List, [], ◌∷◌, ◌++◌, append_assoc, length, length-append,
  length-map, length-reverse, map, map-append, front-last, ok, arith,
}
use tax_bro.Prelude.Int.{abs}
use tax_bro.Text.{Bytes}
use tax_bro.Migrate.{
  Direction, up, down, MigrationsOpts, new_checkpoint, base_name, prepare_migrations,
}
use tax_bro.Migrate.Slices.{left_after, planned, prepare_migrations-planned}
use tax_bro.Migrate.Names.{
  file, checkpoint, IsClear, checkpoint-last, checkpoint-append, base_name-file, limited-append,
  last_of-map,
}
use tax_bro.Migrate.Checkpoint.{whole_front, after_up, after_down, before_front, found_first}

-- The plan of as many files as there are steps.
planned-steps :
    (migrations : List Bytes) (direction : Direction) (opts : MigrationsOpts) (m : Bytes)
    (ms rest : List Bytes) (name base : Bytes)
    → abs opts.steps ≡ length (m ∷ ms)
    → new_checkpoint opts.zero_all direction migrations (m ∷ ms) ≡ ok name
    → base_name name ≡ ok base
    → planned migrations direction opts ((m ∷ ms) ++ rest) ≡ ok (base, m ∷ ms)
unfolding planned
planned-steps migrations direction opts m ms rest name base steps named based =
    rw (limited-append opts.steps m ms rest steps, named, based) refl

module _ (front : List Bytes) (x : Bytes) (xs back : List Bytes)
    (clear : IsClear (front ++ ((x ∷ xs) ++ back))) where
  -- The last of those that are run.
  end_of :
      (init : List Bytes) × (l : Bytes) × (x ∷ xs ≡ init ++ l ∷ [])
      × (front ++ ((x ∷ xs) ++ back) ≡ (front ++ init) ++ l ∷ back)
      × (checkpoint (front ++ x ∷ xs) ≡ l)
  end_of =
      let (init, l, e) = front-last x xs in
      (
        init,
        l,
        e,
        ap (λ z. front ++ z) (whole_front (x ∷ xs) init l back e)
            ∙ sym (append_assoc front init (l ∷ back)),
        checkpoint-append front x xs ∙ ap checkpoint e ∙ checkpoint-last init l,
      )

  plan_up :
      (opts : MigrationsOpts)
      → opts.zero_all ≡ false
      → abs opts.steps ≡ length (x ∷ xs)
      → prepare_migrations (map (file up) (front ++ ((x ∷ xs) ++ back))) up (checkpoint front) opts
        ≡ ok (checkpoint (front ++ x ∷ xs), map (file up) (x ∷ xs))
  unfolding new_checkpoint
  plan_up opts some_left steps =
      let (init, l, e, whole, at) = end_of in
      let n = clear (front ++ init) l back whole in
      let based : base_name (file up (checkpoint (x ∷ xs))) ≡ ok (checkpoint (front ++ x ∷ xs)) =
        rw (← checkpoint-append front x xs, at) (base_name-file up l n.no_dot) in
      let long : abs opts.steps ≡ length (map (file up) (x ∷ xs)) =
        steps ∙ sym (length-map (file up) (x ∷ xs)) in
      let named : new_checkpoint opts.zero_all up (map (file up) (front ++ ((x ∷ xs) ++ back)))
            (map (file up) (x ∷ xs))
          ≡ ok (file up (checkpoint (x ∷ xs))) =
        rw some_left (last_of-map up x xs) in
      prepare_migrations-planned _ _ _ opts
      ∙ ap (planned (map (file up) (front ++ ((x ∷ xs) ++ back))) up opts)
          (after_up front ((x ∷ xs) ++ back) clear ∙ map-append (file up) (x ∷ xs) back)
      ∙ planned-steps (map (file up) (front ++ ((x ∷ xs) ++ back))) up opts (file up x)
          (map (file up) xs) (map (file up) back) (file up (checkpoint (x ∷ xs)))
          (checkpoint (front ++ x ∷ xs)) long named based

  -- What is left to revert, from the last one on.
  left_down :
      (init : List Bytes) (l : Bytes)
      → front ++ ((x ∷ xs) ++ back) ≡ (front ++ init) ++ l ∷ back
      → left_after (map (file down) (front ++ ((x ∷ xs) ++ back))) down l
        ≡ (file down l ∷ map (file down) (reverse init)) ++ map (file down) (reverse front)
  left_down init l whole =
      after_down (front ++ ((x ∷ xs) ++ back)) (front ++ init) l back whole clear
      ∙ ap (λ z. map (file down) (l ∷ z)) (reverse-append front init)
      ∙ map-append (file down) (l ∷ reverse init) (reverse front)

  reverse_ends :
      (init : List Bytes) (l : Bytes)
      → x ∷ xs ≡ init ++ l ∷ []
      → l ∷ reverse init ≡ reverse (x ∷ xs)
  reverse_ends init l e = sym (ap reverse e ∙ reverse-append init (l ∷ []))

  -- The name that a run downwards stores.
  named_down :
      (zero_all : Bool) (init : List Bytes) (l : Bytes)
      → zero_all ≡ false
      → x ∷ xs ≡ init ++ l ∷ []
      → (name : Bytes) × (new_checkpoint zero_all down
            (map (file down) (front ++ ((x ∷ xs) ++ back)))
            (file down l ∷ map (file down) (reverse init))
          ≡ ok name)
        × (base_name name ≡ ok (checkpoint front))
  unfolding new_checkpoint
  named_down zero_all init l some_left e =
      let (name, before, based) = before_front front ((x ∷ xs) ++ back) clear in
      let at : checkpoint (l ∷ reverse init) ≡ x =
        ap checkpoint (reverse_ends init l e ∙ reverse-cons x xs)
        ∙ checkpoint-last (reverse xs) x in
      let last_found = last_of-map down l (reverse init) ∙ ap (λ z. ok (file down z)) at in
      (name, rw (some_left, last_found, found_first front x (xs ++ back) clear) before, based)

  plan_down :
      (opts : MigrationsOpts)
      → opts.zero_all ≡ false
      → abs opts.steps ≡ length (x ∷ xs)
      → prepare_migrations
          (map (file down) (front ++ ((x ∷ xs) ++ back)))
          down
          (checkpoint (front ++ x ∷ xs))
          opts
        ≡ ok (checkpoint front, map (file down) (reverse (x ∷ xs)))
  plan_down opts some_left steps =
      let (init, l, e, whole, at) = end_of in
      let (name, named, based) = named_down opts.zero_all init l some_left e in
      let long : abs opts.steps ≡ length (file down l ∷ map (file down) (reverse init)) = omega (
        arith,
        steps,
        ap length e,
        length-append init (l ∷ []),
        length-map (file down) (reverse init),
        length-reverse init,
      ) in
      prepare_migrations-planned _ _ _ opts
      ∙ ap
          (λ c.
            planned (map (file down) (front ++ ((x ∷ xs) ++ back))) down opts
              (left_after (map (file down) (front ++ ((x ∷ xs) ++ back))) down c))
          at
      ∙ ap (planned (map (file down) (front ++ ((x ∷ xs) ++ back))) down opts)
          (left_down init l whole)
      ∙ planned-steps (map (file down) (front ++ ((x ∷ xs) ++ back))) down opts (file down l)
          (map (file down) (reverse init)) (map (file down) (reverse front)) name (checkpoint front)
          long named based
      ∙ ap (λ z. ok (checkpoint front, map (file down) z)) (reverse_ends init l e)

  -- Between the states behind `front` and behind `front ++ (x ∷ xs)`, with as many steps as there are
  -- names in between: a run upwards executes exactly the files in between and stores the last
  -- name, and a run downwards from there executes their counterparts, the last one first, and
  -- stores the name that the run upwards started from. No name is empty, has a dot, or begins the
  -- file of another.
  pub prepare_migrations-revert :
      (opts opts' : MigrationsOpts)
      → opts.zero_all ≡ false
      → abs opts.steps ≡ length (x ∷ xs)
      → opts'.zero_all ≡ false
      → abs opts'.steps ≡ length (x ∷ xs)
      → (prepare_migrations (map (file up) (front ++ ((x ∷ xs) ++ back))) up (checkpoint front) opts
          ≡ ok (checkpoint (front ++ x ∷ xs), map (file up) (x ∷ xs)))
        × (prepare_migrations
              (map (file down) (front ++ ((x ∷ xs) ++ back)))
              down
              (checkpoint (front ++ x ∷ xs))
              opts'
            ≡ ok (checkpoint front, map (file down) (reverse (x ∷ xs))))
  prepare_migrations-revert opts opts' left steps left' steps' =
      (plan_up opts left steps, plan_down opts' left' steps')
