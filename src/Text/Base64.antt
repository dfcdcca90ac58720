-- ===== src/Text/Base64.antt =====
-- `base64.StdEncoding.DecodeString`: the padded alphabet, line breaks passed over, the spare bits
-- of the last group not looked at.
use tax_bro.Prelude.{
  ℕ, ◌+◌, ◌-◌, ◌*◌, ◌/◌, ◌%◌, ◌&&◌, ◌||◌, [], ◌∷◌, leb, nat_eq, Fallible, value, error, Option,
  none, some, if◌then◌else◌,
}
use tax_bro.Text.{Bytes}

unfoldable pub from_base64_char : ℕ → Option ℕ
from_base64_char c =
    if leb b'A' c && leb c b'Z'
    then some (c - 65)
    else if leb b'a' c && leb c b'z'
    then some (c - 71)
    else if leb b'0' c && leb c b'9'
    then some (c + 4)
    else if nat_eq c b'+'
    then some 62
    else if nat_eq c b'/'
    then some 63
    else none

unfoldable pub drop_line_breaks : Bytes → Bytes
drop_line_breaks [] = []
drop_line_breaks (c ∷ s) =
    let rest = drop_line_breaks s in if nat_eq c 10 || nat_eq c 13 then rest else c ∷ rest

-- A whole group of four gives three bytes.
abbrev full_group : Option ℕ → Option ℕ → Option ℕ → Option ℕ → Fallible Bytes → Fallible Bytes
full_group (some a) (some b) (some c) (some d) (value rest) =
    value ((a * 4 + b / 16) ∷ (b % 16 * 16 + c / 4) ∷ (c % 4 * 64 + d) ∷ rest)
full_group _ _ _ _ _ = error

-- The last group may end in one `=`, or in two.
abbrev two_bytes : Option ℕ → Option ℕ → Option ℕ → Fallible Bytes
two_bytes (some a) (some b) (some c) = value ((a * 4 + b / 16) ∷ (b % 16 * 16 + c / 4) ∷ [])
two_bytes _ _ _ = error

abbrev one_byte : Option ℕ → Option ℕ → Fallible Bytes
one_byte (some a) (some b) = value ((a * 4 + b / 16) ∷ [])
one_byte _ _ = error

abbrev last_group : ℕ → ℕ → ℕ → ℕ → Fallible Bytes
unfolding from_base64_char
last_group a b c d =
    if nat_eq d b'='
    then (if nat_eq c b'='
        then one_byte (from_base64_char a) (from_base64_char b)
        else two_bytes (from_base64_char a) (from_base64_char b) (from_base64_char c))
    else full_group (from_base64_char a) (from_base64_char b) (from_base64_char c)
        (from_base64_char d) (value [])

unfoldable pub decode_groups : Bytes → Fallible Bytes
unfolding from_base64_char
decode_groups [] = value []
decode_groups (a ∷ b ∷ c ∷ d ∷ []) = last_group a b c d
decode_groups (a ∷ b ∷ c ∷ d ∷ rest) =
    full_group (from_base64_char a) (from_base64_char b) (from_base64_char c) (from_base64_char d)
      (decode_groups rest)
decode_groups _ = error

unfoldable pub decode_string : Bytes → Fallible Bytes
unfolding decode_groups drop_line_breaks
decode_string s = decode_groups (drop_line_breaks s)
