-- ===== src/Plmn/RoundTrip.antt =====
-- The octets of a PLMN, printed in hexadecimal and converted back, give its MCC and MNC.
use central_unit.Base.{
  ℕ, ◌+◌, ◌-◌, ◌*◌, ◌/◌, ◌%◌, ◌≤◌, ◌≡◌, refl, ◌⊎◌, ◌↔◌, true, [], ◌∷◌, length, done, arith, All,
}
use central_unit.Bytes.{Bytes}
use central_unit.Bytes.Hex.{from_hex_char, decode_string, hex_char, sprint_hex}
use central_unit.Bytes.Laws.{equal_iff}
use central_unit.Plmn.{get_mcc_and_mnc_in_octets, convert_mcc_mnc, plmn_matches}

abbrev pub IsDigit : ℕ → Type 0
IsDigit c = (b'0' ≤ c) × (c ≤ b'9')

abbrev pair : ℕ → ℕ → ℕ
pair p q = (p - b'0') * 16 + (q - b'0')

abbrev filled : ℕ → ℕ
filled q = 240 + (q - b'0')

decode_string-nil : (decode_string []).0 ≡ []
unfolding decode_string
decode_string-nil = refl

-- What `decode_string` makes of two digits, and of a digit behind the filler.
decode_pair :
    (p q : ℕ) (rest : Bytes)
    → IsDigit p
    → IsDigit q
    → (decode_string (p ∷ q ∷ rest)).0 ≡ pair p q ∷ (decode_string rest).0
unfolding decode_string from_hex_char
decode_pair p q rest hp hq = ground arith

decode_filled :
    (q : ℕ) (rest : Bytes)
    → IsDigit q
    → (decode_string (b'f' ∷ q ∷ rest)).0 ≡ filled q ∷ (decode_string rest).0
unfolding decode_string from_hex_char
decode_filled q rest hq = ground arith

hex_char-pair :
    (p q : ℕ)
    → IsDigit p
    → IsDigit q
    → (hex_char (pair p q / 16) ≡ p) × (hex_char (pair p q % 16) ≡ q)
unfolding hex_char
hex_char-pair p q hp hq = ground arith

hex_char-filled :
    (q : ℕ) → IsDigit q → (hex_char (filled q / 16) ≡ b'f') × (hex_char (filled q % 16) ≡ q)
unfolding hex_char
hex_char-filled q hq = ground arith

-- A PLMN of decimal digits, three for the MCC and two or three for the MNC, is encoded without a
-- panic as three octets, which print in hexadecimal to a text that is converted back to it.
pub convert-octets :
    (mcc mnc : Bytes)
    → length mcc ≡ 3
    → (length mnc ≡ 2) ⊎ (length mnc ≡ 3)
    → All IsDigit mcc
    → All IsDigit mnc
    → (octets : Bytes) × (get_mcc_and_mnc_in_octets mcc mnc ≡ done octets)
      × (length octets ≡ 3)
      × (convert_mcc_mnc (sprint_hex octets) ≡ done (mcc, mnc))
unfolding get_mcc_and_mnc_in_octets convert_mcc_mnc sprint_hex
convert-octets (a ∷ b ∷ c ∷ []) (x ∷ y ∷ []) h k (ha, (hb, (hc, _))) (hx, (hy, _)) = (
  pair b a ∷ filled c ∷ pair y x ∷ [],
  cc (
    decode_pair b a (b'f' ∷ c ∷ y ∷ x ∷ []) hb ha,
    decode_filled c (y ∷ x ∷ []) hc,
    decode_pair y x [] hy hx,
    decode_string-nil,
  ),
  refl,
  ground (arith, hex_char-pair b a, hex_char-filled c, hex_char-pair y x),
)
convert-octets (a ∷ b ∷ c ∷ []) (x ∷ y ∷ z ∷ []) h k (ha, (hb, (hc, _))) (hx, (hy, (hz, _))) = (
  pair b a ∷ pair x c ∷ pair z y ∷ [],
  cc (
    decode_pair b a (x ∷ c ∷ z ∷ y ∷ []) hb ha,
    decode_pair x c (z ∷ y ∷ []) hx hc,
    decode_pair z y [] hz hy,
    decode_string-nil,
  ),
  refl,
  ground (arith, hex_char-pair b a, hex_char-pair x c, hex_char-pair z y),
)
convert-octets _ _ h k hm hn = absurd (omega arith)

-- Two PLMNs match exactly when they are the same three bytes.
pub plmn_matches_iff : (p q : Bytes) → (plmn_matches p q ≡ true) ↔ ((p ≡ q) × (length p ≡ 3))
unfolding plmn_matches
plmn_matches_iff p q = ground (arith, equal_iff p q)
