-- ===== src/Migrate/Checkpoint.antt =====
-- `prepareMigrations` of cmd/migrate/main.go upwards and back: over a folder with two files for each
-- name, `front ++ ((x ∷ xs) ++ back)`.
use mathlib.Core.List.{reverse, reverse-append, reverse-cons}
use tax_bro.Prelude.{
  suc, ◌≡◌, refl, sym, ap, ◌∙◌, false, List, [], ◌∷◌, ◌++◌, append_assoc, All, some, length,
  length-append, length-map, map, map-append, map-reverse, All-front, All-back, All-map,
  All-reverse, front-last, get_elem?-append, get_elem?, ok, arith,
}
use tax_bro.Text.{Bytes, has_prefix, bytes_eq, bytes_eq_self, bytes_eq_apart}
use tax_bro.Text.Split.{has_prefix-append}
use tax_bro.Migrate.{up, down, index_func, name_before, base_name, suffix_of}
use tax_bro.Migrate.Slices.{left_after}
use tax_bro.Migrate.Names.{
  file, checkpoint, IsClear, checkpoint-last, base_name-file, index_func-append, left_after-up,
  left_after-down,
}

pub whole_front :
    (front f : List Bytes) (l : Bytes) (rest : List Bytes)
    → front ≡ f ++ l ∷ []
    → front ++ rest ≡ f ++ l ∷ rest
whole_front front f l rest e = ap (λ z. z ++ rest) e ∙ append_assoc f (l ∷ []) rest

after_last :
    (front f : List Bytes) (l : Bytes) (rest : List Bytes)
    → front ≡ f ++ l ∷ []
    → IsClear (front ++ rest)
    → left_after (map (file up) (front ++ rest)) up (checkpoint front) ≡ map (file up) rest
after_last front f l rest e clear =
    let n = clear f l rest (whole_front front f l rest e) in
    let at : checkpoint front ≡ l = ap checkpoint e ∙ checkpoint-last f l in
    rw (whole_front front f l rest e, at, map-append (file up) f (l ∷ rest))
      (left_after-up (map (file up) f) (file up l) (map (file up) rest) l n.some_name
        (All-map (λ m. has_prefix m l ≡ false) (file up) f
          (All-front (λ y. has_prefix (file up y) l ≡ false) f rest (n.apart up)))
        (has_prefix-append l (suffix_of up)))

pub after_up :
    (front rest : List Bytes)
    → IsClear (front ++ rest)
    → left_after (map (file up) (front ++ rest)) up (checkpoint front) ≡ map (file up) rest
unfolding left_after
after_up [] rest clear = refl
after_up (y ∷ ys) rest clear =
    let (f, l, e) = front-last y ys in after_last (y ∷ ys) f l rest e clear

pub after_down :
    (names front : List Bytes) (l : Bytes) (back : List Bytes)
    → names ≡ front ++ l ∷ back
    → IsClear names
    → left_after (map (file down) names) down l ≡ map (file down) (l ∷ reverse front)
after_down names front l back e clear =
    let n = clear front l back e in
    left_after-down (map (file down) names) (map (file down) (reverse back)) (file down l)
      (map (file down) (reverse front)) l reversed n.some_name
      (All-map (λ m. has_prefix m l ≡ false) (file down) (reverse back)
        (All-reverse (λ y. has_prefix (file down y) l ≡ false) back
          (All-back (λ y. has_prefix (file down y) l ≡ false) front back (n.apart down))))
      (has_prefix-append l (suffix_of down))
  where
    reversed :
        reverse (map (file down) names)
        ≡ map (file down) (reverse back) ++ file down l ∷ map (file down) (reverse front)
    reversed =
        sym (map-reverse (file down) names)
        ∙ ap (λ z. map (file down) (reverse z)) e
        ∙ ap (map (file down)) (
            reverse-append front (l ∷ back)
            ∙ ap (λ z. z ++ reverse front) (reverse-cons l back)
            ∙ append_assoc (reverse back) (l ∷ []) (reverse front))
        ∙ map-append (file down) (reverse back) (l ∷ reverse front)

before_last :
    (front f : List Bytes) (l : Bytes) (rest : List Bytes)
    → front ≡ f ++ l ∷ []
    → name_before (some (length front)) (map (file down) (front ++ rest)) ≡ ok (file down l)
before_last front f l rest e =
    let long : length front ≡ suc (length (map (file down) f)) =
      omega (arith, ap length e, length-append f (l ∷ []), length-map (file down) f) in
    let found : get_elem? (map (file down) f ++ map (file down) (l ∷ rest))
          (length (map (file down) f))
        ≡ some (file down l) =
      get_elem?-append (map (file down) f) (file down l) (map (file down) rest) in
    rw (whole_front front f l rest e, map-append (file down) f (l ∷ rest), long)
      (rw (found, name_before))

-- The name in front of the first one that is reverted.
pub before_front :
    (front rest : List Bytes)
    → IsClear (front ++ rest)
    → (name : Bytes) × (name_before (some (length front)) (map (file down) (front ++ rest))
        ≡ ok name)
      × (base_name name ≡ ok (checkpoint front))
unfolding base_name tax_bro.Text.Split.split tax_bro.Text.Split.split_from
before_front [] rest clear = ([], refl, refl)
before_front (y ∷ ys) rest clear =
    let (f, l, e) = front-last y ys in
    let n = clear f l rest (whole_front (y ∷ ys) f l rest e) in
    let at : checkpoint (y ∷ ys) ≡ l = ap checkpoint e ∙ checkpoint-last f l in
    (file down l, before_last (y ∷ ys) f l rest e, base_name-file down l n.no_dot ∙ ap ok (sym at))

differs :
    (x y : Bytes)
    → has_prefix (file down y) x ≡ false
    → bytes_eq (file down y) (file down x) ≡ false
differs x y other = bytes_eq_apart (file down y) (file down x) (λ e.
    let own = has_prefix-append x (suffix_of down) in
    let same = ap (λ m. has_prefix m x) e in ground (arith, own, same, other))

all_differ :
    (x : Bytes) (names : List Bytes)
    → All (λ y. has_prefix (file down y) x ≡ false) names
    → All (λ m. bytes_eq m (file down x) ≡ false) (map (file down) names)
all_differ x [] others = tt
all_differ x (y ∷ names) others = (differs x y others.0, all_differ x names others.1)

-- Where the first one that is reverted stands.
pub found_first :
    (front : List Bytes) (x : Bytes) (rest : List Bytes)
    → IsClear (front ++ x ∷ rest)
    → index_func (λ m. bytes_eq m (file down x)) (map (file down) (front ++ x ∷ rest))
      ≡ some (length front)
found_first front x rest clear =
    let n = clear front x rest refl in
    rw (map-append (file down) front (x ∷ rest)) (
      index_func-append (λ m. bytes_eq m (file down x)) (map (file down) front) (file down x)
        (map (file down) rest)
        (all_differ x front
          (All-front (λ y. has_prefix (file down y) x ≡ false) front rest (n.apart down)))
        (bytes_eq_self (file down x))
      ∙ ap some (length-map (file down) front))
