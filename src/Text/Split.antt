-- ===== src/Text/Split.antt =====
-- `strings.Split(s, sep)` for a separator that is not empty.
use tax_bro.Prelude.{
  ℕ, zero, suc, ◌-◌, ◌≡◌, refl, true, false, List, [], ◌∷◌, ◌++◌, length, append-nil, append_assoc,
  Bool-cases, inl, inr, arith,
}
use tax_bro.Text.{Bytes, has_prefix, occurs}

-- The scan: `skip` bytes of a separator are still to be passed over, and `part` holds the bytes
-- since the last separator.
unfoldable pub split_from : ℕ → Bytes → Bytes → Bytes → List Bytes
split_from skip sep [] part = part ∷ []
split_from (suc skip) sep (c ∷ s) part = split_from skip sep s part
split_from zero sep (c ∷ s) part = elim (has_prefix (c ∷ s) sep) [
  | true ↦ part ∷ split_from (length sep - 1) sep s []
  | false ↦ split_from zero sep s (part ++ c ∷ [])
]

unfoldable pub split : Bytes → Bytes → List Bytes
unfolding split_from
split s sep = split_from zero sep s []

-- A text with no separator is one part.
split_from_absent :
    (sep s part : Bytes) → occurs sep s ≡ false → split_from zero sep s part ≡ (part ++ s) ∷ []
unfolding split_from
split_from_absent sep [] part h = rw append-nil
split_from_absent sep (c ∷ s) part h =
    ground (arith, append_assoc part (c ∷ []) s, split_from_absent sep s (part ++ c ∷ []))

split_from_skip :
    (front sep s part : Bytes)
    → split_from (length front) sep (front ++ s) part ≡ split_from zero sep s part
unfolding split_from
split_from_skip [] sep s part = refl
split_from_skip (c ∷ front) sep s part = split_from_skip front sep s part

pub has_prefix-append : (p s : Bytes) → has_prefix (p ++ s) p ≡ true
has_prefix-append [] s = refl
has_prefix-append (c ∷ p) s = ground (arith, has_prefix-append p s)

pub split_absent : (s sep : Bytes) → occurs sep s ≡ false → split s sep ≡ s ∷ []
unfolding split
split_absent s sep h = split_from_absent sep s [] h

-- The separator, then a text without it: an empty part and that text.
pub split-append :
    (c : ℕ) (sep body : Bytes)
    → occurs (c ∷ sep) body ≡ false
    → split ((c ∷ sep) ++ body) (c ∷ sep) ≡ [] ∷ body ∷ []
unfolding split
split-append c sep body h = ground (
  arith,
  has_prefix-append (c ∷ sep) body,
  split_from_skip sep (c ∷ sep) body [],
  split_from_absent (c ∷ sep) body [] h,
)

split_from-nonempty :
    (skip : ℕ) (sep s part : Bytes)
    → (first : Bytes) × (rest : List Bytes) × (split_from skip sep s part ≡ first ∷ rest)
unfolding split_from
split_from-nonempty skip sep [] part = (part, [], refl)
split_from-nonempty (suc skip) sep (c ∷ s) part = split_from-nonempty skip sep s part
split_from-nonempty zero sep (c ∷ s) part = elim (Bool-cases (has_prefix (c ∷ s) sep)) [
  | inl here ↦ (part, split_from (length sep - 1) sep s [], ground arith)
  | inr later ↦
      let (first, rest, e) = split_from-nonempty zero sep s (part ++ c ∷ []) in
      (first, rest, ground (arith, e))
]

split_from-occurs :
    (d : ℕ) (sep s part : Bytes)
    → occurs (d ∷ sep) s ≡ true
    → (first second : Bytes) × (rest : List Bytes) × (split_from zero (d ∷ sep) s part
        ≡ first ∷ second ∷ rest)
unfolding split_from
split_from-occurs d sep [] part h = cc
split_from-occurs d sep (c ∷ s) part h = elim (Bool-cases (has_prefix (c ∷ s) (d ∷ sep))) [
  | inl here ↦
      let (second, rest, e) = split_from-nonempty (length (d ∷ sep) - 1) (d ∷ sep) s [] in
      (part, second, rest, ground (arith, e))
  | inr later ↦
      let (first, second, rest, e) = split_from-occurs d sep s (part ++ c ∷ []) (ground arith) in
      (first, second, rest, ground (arith, e))
]

-- Where the separator occurs there are at least two parts.
pub split-occurs :
    (d : ℕ) (sep s : Bytes)
    → occurs (d ∷ sep) s ≡ true
    → (first second : Bytes) × (rest : List Bytes) × (split s (d ∷ sep) ≡ first ∷ second ∷ rest)
unfolding split
split-occurs d sep s h = split_from-occurs d sep s [] h

-- There is always a first part.
pub split-cons :
    (s sep : Bytes) → (first : Bytes) × (rest : List Bytes) × (split s sep ≡ first ∷ rest)
unfolding split
split-cons s sep = split_from-nonempty zero sep s []

split_from_first :
    (c : ℕ) (s rest part : Bytes)
    → occurs (c ∷ []) s ≡ false
    → (parts : List Bytes) × (split_from zero (c ∷ []) (s ++ c ∷ rest) part ≡ (part ++ s) ∷ parts)
unfolding split_from
split_from_first c [] rest part h =
    (split_from zero (c ∷ []) rest [], ground (arith, append-nil part))
split_from_first c (d ∷ s) rest part h =
    let (parts, e) = split_from_first c s rest (part ++ d ∷ []) (ground (arith, h)) in
    (parts, ground (arith, h, e, append_assoc part (d ∷ []) s))

-- A text without the separator, then the separator: that text is the first part.
pub split-first :
    (c : ℕ) (s rest : Bytes)
    → occurs (c ∷ []) s ≡ false
    → (parts : List Bytes) × (split (s ++ c ∷ rest) (c ∷ []) ≡ s ∷ parts)
unfolding split
split-first c s rest h = split_from_first c s rest [] h
