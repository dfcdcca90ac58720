-- ===== src/Migrate/Stored.antt =====
-- The checkpoint that `prepareMigrations` in cmd/migrate/main.go stores.
use mathlib.Core.List.{reverse}
use tax_bro.Prelude.{
  suc, ◌≡◌, refl, sym, ap, subst, ◌∙◌, inl, inr, Bool, true, false, List, [], ◌∷◌, ◌++◌,
  append_assoc, All, All-front, All-back, All-reverse, some, length, length-append, front-last,
  get_elem?, get_elem?-append, ok, ok-injective, >>=-eq-ok, arith,
}
use tax_bro.Text.{Bytes, bytes_eq, bytes_eq_self, bytes_eq_inv}
use tax_bro.Migrate.{Direction, up, down, last_of, name_before, new_checkpoint, base_name}
use tax_bro.Migrate.Slices.{ordered}
use tax_bro.Migrate.Described.{
  IsStored, to_zero, last_run, before_first, before_last, index_func-split,
}

pub last_of-append :
    (xs : List Bytes) (l : Bytes) → last_of xs ≡ ok l → (init : List Bytes) × (xs ≡ init ++ l ∷ [])
unfolding last_of
last_of-append [] l h = cc
last_of-append (x ∷ []) l h = ([], rw (ok-injective h))
last_of-append (x ∷ y ∷ xs) l h =
    let (init, e) = last_of-append (y ∷ xs) l h in (x ∷ init, ap (◌∷◌ x) e)

base_name_empty : base_name [] ≡ ok []
unfolding base_name tax_bro.Text.Split.split tax_bro.Text.Split.split_from
base_name_empty = refl

-- The name in front of a position.
name_before-append :
    (front : List Bytes) (p : Bytes) (rest : List Bytes)
    → name_before (some (length (front ++ p ∷ []))) ((front ++ p ∷ []) ++ rest) ≡ ok p
name_before-append front p rest =
    let long : length (front ++ p ∷ []) ≡ suc (length front) =
      omega (arith, length-append front (p ∷ [])) in
    let at : get_elem? (front ++ p ∷ rest) (length front) ≡ some p =
      get_elem?-append front p rest in
    rw (long, append_assoc front (p ∷ []) rest) (rw (at, name_before))

-- A name that was executed is among all of them.
not_missing :
    (migrations executable front back init : List Bytes) (l : Bytes)
    → front ++ (executable ++ back) ≡ reverse migrations
    → executable ≡ init ++ l ∷ []
    → All (λ m. bytes_eq m l ≡ false) migrations
    → ⊥
not_missing migrations executable front back init l whole e others =
    let P : Bytes → Type 0 = λ m. bytes_eq m l ≡ false in
    let all : All P (front ++ (executable ++ back)) = rw whole (All-reverse P migrations others) in
    let here = All-front P executable back (All-back P front (executable ++ back) all) in
    let own = All-back P init (l ∷ []) (rw e at here) in
    let same = bytes_eq_self l in absurd (ground (arith, same, own.0))

name_before-IsStored :
    (migrations front init : List Bytes) (m l : Bytes) (back : List Bytes) (name base : Bytes)
    → migrations ≡ front ++ m ∷ back
    → All (λ m. bytes_eq m l ≡ false) front
    → m ≡ l
    → name_before (some (length front)) migrations ≡ ok name
    → base_name name ≡ ok base
    → IsStored false migrations down (init ++ l ∷ []) base
name_before-IsStored migrations [] init m l back name base e others same named based =
    subst (IsStored false migrations down (init ++ l ∷ []))
      (ok-injective (sym base_name_empty ∙ ap base_name (ok-injective named) ∙ based))
      (before_first init back l refl (e ∙ ap (λ z. z ∷ back) same))
name_before-IsStored migrations (y ∷ ys) init m l back name base e others same named based =
    let (front, p, e') = front-last y ys in
    let whole : migrations ≡ (front ++ p ∷ []) ++ l ∷ back =
      e ∙ ap (λ z. z ++ m ∷ back) e' ∙ ap (λ z. (front ++ p ∷ []) ++ z ∷ back) same in
    let first : ok p ≡ ok name =
      sym (name_before-append front p (l ∷ back))
      ∙ sym (
          ap (λ z. name_before (some (length z)) migrations) e'
          ∙ ap (name_before (some (length (front ++ p ∷ [])))) whole)
      ∙ named in
    before_last init front back p l refl whole (subst (All (λ m. bytes_eq m l ≡ false)) e' others)
      (ap base_name (ok-injective first) ∙ based)

pub new_checkpoint-IsStored :
    (zero_all : Bool) (direction : Direction) (migrations executable front back : List Bytes)
    (name base : Bytes)
    → front ++ (executable ++ back) ≡ ordered direction migrations
    → new_checkpoint zero_all direction migrations executable ≡ ok name
    → base_name name ≡ ok base
    → IsStored zero_all migrations direction executable base
unfolding new_checkpoint
new_checkpoint-IsStored true direction migrations executable front back name base whole named
      based =
    subst (IsStored true migrations direction executable)
      (ok-injective (sym base_name_empty ∙ ap base_name (ok-injective named) ∙ based))
      (to_zero refl)
new_checkpoint-IsStored false up migrations executable front back name base whole named based =
    let (init, e) = last_of-append executable name named in
    subst (λ z. IsStored false migrations up z base) (sym e) (last_run init name refl based)
new_checkpoint-IsStored false down migrations executable front back name base whole named based =
    let (l, at, rest) = >>=-eq-ok (last_of executable) _ named in
    let (init, e) = last_of-append executable l at in
    elim (index_func-split (λ m. bytes_eq m l) migrations) [
      | inl (others, missing) ↦
          absurd (not_missing migrations executable front back init l whole e others)
      | inr (before, m, behind, split_here, others, own, found) ↦
          subst (λ z. IsStored false migrations down z base) (sym e)
            (name_before-IsStored migrations before init m l behind name base split_here others
              (bytes_eq_inv m l own) (rw found at rest) based)
    ]
