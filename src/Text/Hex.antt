-- ===== src/Text/Hex.antt =====
-- `hex.EncodeToString` and `hex.DecodeString`.
use tax_bro.Prelude.{
  ℕ, ◌+◌, ◌-◌, ◌*◌, ◌/◌, ◌%◌, ◌&&◌, [], ◌∷◌, leb, ltb, Fallible, value, error, Option, none, some,
  if◌then◌else◌,
}
use tax_bro.Text.{Bytes}

-- The table "0123456789abcdef".
unfoldable pub hex_digit : ℕ → ℕ
hex_digit n = if ltb n 10 then 48 + n else 87 + n

-- Upper case is read too.
unfoldable pub from_hex_char : ℕ → Option ℕ
from_hex_char c =
    if leb b'0' c && leb c b'9'
    then some (c - 48)
    else if leb b'a' c && leb c b'f'
    then some (c - 87)
    else if leb b'A' c && leb c b'F'
    then some (c - 55)
    else none

unfoldable pub encode_to_string : Bytes → Bytes
unfolding hex_digit
encode_to_string [] = []
encode_to_string (b ∷ bytes) = hex_digit (b / 16) ∷ hex_digit (b % 16) ∷ encode_to_string bytes

abbrev decode_pair : Option ℕ → Option ℕ → Fallible Bytes → Fallible Bytes
decode_pair (some h) (some l) (value bytes) = value ((h * 16 + l) ∷ bytes)
decode_pair _ _ _ = error

-- An odd length, or a byte that is no digit, is an error.
unfoldable pub decode_string : Bytes → Fallible Bytes
unfolding from_hex_char
decode_string [] = value []
decode_string (h ∷ []) = error
decode_string (h ∷ l ∷ rest) = decode_pair (from_hex_char h) (from_hex_char l) (decode_string rest)
