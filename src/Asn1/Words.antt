-- ===== src/Asn1/Words.antt =====
-- The shifting loops as big-endian numbers.
use central_unit.Base.{
  ℕ, ◌+◌, ◌*◌, ◌%◌, ◌^◌, ◌≤◌, ◌<◌, ◌≡◌, refl, [], ◌∷◌, length, All, arith, bit_or,
}
use native.Mathlib.Nat.{pow-suc, one-le-pow}
use central_unit.Base.Bits.{bit_or_fields}
use central_unit.Bytes.{Bytes, IsByte, be_from}
use central_unit.Asn1.{shift_in}

-- One round appends a byte, as long as the result fits 64 bits.
pub shift_in_byte :
    (val b : ℕ) → IsByte b → val < 2 ^ 56 → bit_or (val * 2 ^ 8 % 2 ^ 64) b ≡ val * 256 + b
shift_in_byte val b hb hv =
    rw (let e : val * 2 ^ 8 % 2 ^ 64 ≡ val * 2 ^ 8 = omega arith in e) (bit_or_fields 8 val b hb)

room :
    (p val b : ℕ)
    → 1 ≤ p
    → b < 256
    → val * (p * 256) + p * 256 ≤ 2 ^ 64
    → (val < 2 ^ 56) × ((val * 256 + b) * p + p ≤ 2 ^ 64)
room p val b hp hb h = (grind arith, grind arith)

-- Up to eight bytes are read as a big-endian number.
pub shift_in-be_from :
    (val : ℕ) (xs : Bytes)
    → All IsByte xs
    → val * 256 ^ length xs + 256 ^ length xs ≤ 2 ^ 64
    → shift_in val xs ≡ be_from val xs
unfolding shift_in be_from
shift_in-be_from val [] h fits = refl
shift_in-be_from val (b ∷ bs) h fits =
    let p = 256 ^ length bs in
    let (small, fits') =
      room p val b (one-le-pow (length bs) 256 (omega arith)) h.0
        (rw (pow-suc 256 (length bs)) at fits) in
    rw (shift_in_byte val b h.0 small) (shift_in-be_from (val * 256 + b) bs h.1 fits')
