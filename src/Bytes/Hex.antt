-- ===== src/Bytes/Hex.antt =====
-- What the source uses of encoding/hex and of the verb `%x`.
use central_unit.Base.{
  ℕ, zero, suc, ◌==◌, ◌++◌, ◌+◌, ◌-◌, ◌/◌, ◌%◌, ◌*◌, Bool, true, false, ◌&&◌, [], ◌∷◌, Option, none,
  some, leb, if◌then◌else◌,
}
use central_unit.Bytes.{Bytes}

-- The value of a hexadecimal digit, of either case.
unfoldable pub from_hex_char : ℕ → Option ℕ
from_hex_char c =
    if leb b'0' c && leb c b'9'
    then some (c - b'0')
    else if leb b'a' c && leb c b'f'
    then some (c - b'a' + 10)
    else if leb b'A' c && leb c b'F'
    then some (c - b'A' + 10)
    else none

-- `hex.DecodeString`: the bytes before the first error, and whether there was none.
unfoldable pub decode_string : Bytes → Bytes × Bool
decode_string [] = ([], true)
decode_string (p ∷ []) = ([], false)
decode_string (p ∷ q ∷ rest) =
    let more = decode_string rest in
    elim (from_hex_char p) [
      | none ↦ ([], false)
      | some hi ↦ elim (from_hex_char q) [
        | none ↦ ([], false)
        | some lo ↦ ((hi * 16 + lo) ∷ more.0, more.1)
      ]
    ]

-- A digit of `fmt.Sprintf("%x", …)`.
unfoldable pub hex_char : ℕ → ℕ
hex_char d = if leb d 9 then b'0' + d else b'a' + d - 10

unfoldable pub sprint_hex : Bytes → Bytes
sprint_hex [] = []
sprint_hex (b ∷ bs) = hex_char (b / 16) ∷ hex_char (b % 16) ∷ sprint_hex bs

unfoldable pub strip_leading : Bytes → Bytes
strip_leading [] = b'0' ∷ []
strip_leading (c ∷ []) = c ∷ []
strip_leading (c ∷ d ∷ rest) = if c == b'0' then strip_leading (d ∷ rest) else c ∷ d ∷ rest

unfoldable pub hex_digits : ℕ → ℕ → Bytes
unfolding hex_char
hex_digits zero v = []
hex_digits (suc n) v = hex_digits n (v / 16) ++ hex_char (v % 16) ∷ []

-- `fmt.Sprintf("%x", v)` of a uint64.
unfoldable pub sprint_hex_uint64 : ℕ → Bytes
unfolding strip_leading hex_digits
sprint_hex_uint64 v = strip_leading (hex_digits 16 v)
