-- ===== src/Text.antt =====
-- The parts of Go's `strings`, `encoding/hex` and `encoding/base64` that the program uses. A Go
-- string that the program takes apart is the list of its bytes.
pub mod Split
pub mod Hex
pub mod Base64
use Prim.Native.Char.{code}
use tax_bro.Prelude.{
  ℕ, ◌≡◌, ◌≢◌, refl, sym, Bool, true, false, ◌&&◌, ◌||◌, Bool-cases, inl, inr, List, [], ◌∷◌,
  String, nat_eq, arith,
}

abbrev pub Bytes : Type 0
Bytes = List ℕ

-- The code points of a text: its bytes, if it is ASCII, as the texts of the program are.
abbrev pub codes : String → Bytes
codes String.[] = []
codes (String.◌∷◌ c s) = code c ∷ codes s

-- `strings.HasPrefix(s, prefix)`
abbrev pub has_prefix : Bytes → Bytes → Bool
has_prefix s [] = true
has_prefix [] (p ∷ prefix) = false
has_prefix (c ∷ s) (p ∷ prefix) = nat_eq c p && has_prefix s prefix

abbrev pub bytes_eq : Bytes → Bytes → Bool
bytes_eq [] [] = true
bytes_eq (a ∷ s) (b ∷ t) = nat_eq a b && bytes_eq s t
bytes_eq _ _ = false

pub bytes_eq_self : (s : Bytes) → bytes_eq s s ≡ true
bytes_eq_self [] = refl
bytes_eq_self (c ∷ s) = ground (arith, bytes_eq_self s)

pub bytes_eq_inv : (s t : Bytes) → bytes_eq s t ≡ true → s ≡ t
bytes_eq_inv [] [] h = refl
bytes_eq_inv [] (d ∷ t) h = cc
bytes_eq_inv (c ∷ s) [] h = cc
bytes_eq_inv (c ∷ s) (d ∷ t) h = ground (arith, bytes_eq_inv s t)

pub bytes_eq_apart : (s t : Bytes) → t ≢ s → bytes_eq s t ≡ false
bytes_eq_apart s t ne = elim (Bool-cases (bytes_eq s t)) [
  | inl same ↦ absurd (ne (sym (bytes_eq_inv s t same)))
  | inr other ↦ other
]

-- `strings.HasSuffix(s, suffix)`
abbrev pub has_suffix : Bytes → Bytes → Bool
has_suffix [] suffix = bytes_eq [] suffix
has_suffix (c ∷ s) suffix = bytes_eq (c ∷ s) suffix || has_suffix s suffix

-- Whether `sep` stands anywhere in `s`.
abbrev pub occurs : Bytes → Bytes → Bool
occurs sep [] = has_prefix [] sep
occurs sep (c ∷ s) = has_prefix (c ∷ s) sep || occurs sep s
