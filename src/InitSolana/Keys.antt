-- ===== src/InitSolana/Keys.antt =====
-- The files of the keys that cmd/init_solana/main.go writes.
use tax_bro.Prelude.{
  ℕ, ◌+◌, ◌<◌, ◌≡◌, ◌≢◌, refl, sym, ap, ◌∙◌, true, Bool-cases, inl, inr, ◌&&◌, List, [], ◌∷◌, ◌++◌,
  append-nil, append_assoc, ltb, length, if◌then◌else◌, ok, >>=-eq-ok, ok-injective, value, arith,
}
use tax_bro.Text.{Bytes, codes}
use tax_bro.InitSolana.{Files, decimal, must_print, print_bytes}

-- What the operating system promises: a file is empty when it was created, a print adds its text,
-- and neither touches the files of other paths.
pub record IsDisk (files : Files) : Type 0 where
  pub created :
      (p : Bytes) (st st' : files.State)
      → files.create p st ≡ value st'
      → (files.read_file p st' ≡ value [])
        × ((q : Bytes) → q ≢ p → files.read_file q st' ≡ files.read_file q st)
  pub printed :
      (p text old : Bytes) (st : files.State)
      → (files.print p text st).0 ≡ true
      → files.read_file p st ≡ value old
      → files.read_file p (files.print p text st).1 ≡ value (old ++ text)
  pub others :
      (p text q : Bytes) (st : files.State)
      → q ≢ p
      → files.read_file q (files.print p text st).1 ≡ files.read_file q st

-- The bytes of a key as a list of JSON.
abbrev pub joined : List ℕ → Bytes
joined [] = []
joined (b ∷ []) = decimal b
joined (b ∷ c ∷ bytes) = decimal b ++ (codes "," ++ joined (c ∷ bytes))

abbrev pub json_list : List ℕ → Bytes
json_list bytes = codes "[" ++ (joined bytes ++ codes "]")

-- What the loop writes from an index on.
abbrev pub from_index : ℕ → List ℕ → Bytes
from_index i [] = []
from_index i (b ∷ bytes) =
    (if ltb 0 i then codes "," else []) ++ (decimal b ++ from_index (i + 1) bytes)

from_index-suc :
    (i : ℕ) (b : ℕ) (bytes : List ℕ)
    → 0 < i
    → from_index i (b ∷ bytes) ≡ codes "," ++ joined (b ∷ bytes)
from_index-suc i b [] h = let later : ltb 0 i ≡ true = ground arith in rw (later, append-nil) refl
from_index-suc i b (c ∷ bytes) h =
    let later : ltb 0 i ≡ true = ground arith in
    rw (later, from_index-suc (i + 1) c bytes (omega arith)) refl

pub from_index-joined : (bytes : List ℕ) → from_index 0 bytes ≡ joined bytes
from_index-joined [] = refl
from_index-joined (b ∷ []) = append-nil (decimal b)
from_index-joined (b ∷ c ∷ bytes) =
    ap (λ s. decimal b ++ s) (from_index-suc 1 c bytes (omega arith))

-- A text was added to one file, and no other was touched.
pub record Adds (files : Files) (p text : Bytes) (st st' : files.State) : Type 0 where
  pub own :
      (old : Bytes) → files.read_file p st ≡ value old → files.read_file p st' ≡ value (old ++ text)
  pub others : (q : Bytes) → q ≢ p → files.read_file q st' ≡ files.read_file q st

module _ (files : Files) (law : IsDisk files) (p : Bytes) where
  nothing-Adds : (st : files.State) → Adds files p [] st st
  nothing-Adds st = record {
    own = λ old h. h ∙ ap value (sym (append-nil old));
    others = λ q ne. refl;
  }

  pub then-Adds :
      (s t : Bytes) (st st₁ st₂ : files.State)
      → Adds files p s st st₁
      → Adds files p t st₁ st₂
      → Adds files p (s ++ t) st st₂
  then-Adds s t st st₁ st₂ a b = record {
    own = λ old h. b.own (old ++ s) (a.own old h) ∙ ap value (append_assoc old s t);
    others = λ q ne. b.others q ne ∙ a.others q ne;
  }

  pub must_print-Adds :
      (text : Bytes) (st st' : files.State)
      → must_print files p text st ≡ ok st'
      → Adds files p text st st'
  must_print-Adds text st st' e = elim (Bool-cases (files.print p text st).0) [
    | inl fine ↦ rw (← ok-injective (rw fine at e)) (record {
      own = λ old h. law.printed p text old st fine h;
      others = λ q ne. law.others p text q st ne;
    })
    | inr full ↦ absurd (cc (rw full at e))
  ]

  pub print_bytes-Adds :
      (count i : ℕ) (bytes : List ℕ) (st st' : files.State)
      → i + length bytes ≡ count
      → print_bytes files p count i bytes st ≡ ok st'
      → Adds files p (from_index i bytes) st st'
  print_bytes-Adds count i [] st st' whole e = rw (← ok-injective e) (nothing-Adds st)
  print_bytes-Adds count i (b ∷ bytes) st st' whole e =
      let (st₁, first, e₁) =
        >>=-eq-ok (if ltb 0 i && ltb i count then must_print files p (codes ",") st else ok st) _
          e in
      let (st₂, second, e₂) = >>=-eq-ok (must_print files p (decimal b) st₁) _ e₁ in
      let inside : ltb i count ≡ true = ground arith in
      let comma : Adds files p (if ltb 0 i then codes "," else []) st st₁ =
        elim (Bool-cases (ltb 0 i)) [
          | inl later ↦ rw later (must_print-Adds (codes ",") st st₁ (rw (later, inside) at first))
          | inr at_start ↦
              rw at_start (rw (← ok-injective (rw at_start at first)) (nothing-Adds st))
        ] in
      then-Adds _ _ st st₁ st' comma (
        then-Adds _ _ st₁ st₂ st' (must_print-Adds (decimal b) st₁ st₂ second)
          (print_bytes-Adds count (i + 1) bytes st₂ st' (omega arith) e₂))
