-- ===== src/Asn1/Uint64.antt =====
-- `BitStringToUint64` against the bit reader of the cell identities.
use central_unit.Base.{
  ℕ, suc, ◌+◌, ◌-◌, ◌*◌, ◌/◌, ◌%◌, ◌^◌, ◌≤◌, ◌<◌, ◌≡◌, ◌∙◌, sym, ap, false, ◌||◌, [], ◌∷◌, length,
  ltb, ◌==◌, All, some, done, bit_or, arith,
}
use central_unit.Base.Bits.{bit_or_fields}
use central_unit.Bytes.{Bytes, IsByte, be_from, be}
use central_unit.Asn1.{
  BitString, place_bytes, bits_unused, bit_string_to_uint64, extract_cell_id_value,
}
use central_unit.Asn1.ReadBits.{two_pow_add, two_pow-le, whole_byte, extract_cell_id_value_lem}
use native.Mathlib.Nat.{one-le-pow, div-lt_iff_lt-mul, mul-le-mul_right}

-- The last byte goes behind m bits of the result.
last_placed :
    (b q m k : ℕ) → b < 256 → m + k ≡ 8 → bit_or (q * 2 ^ m) (b / 2 ^ k) ≡ q * 2 ^ m + b / 2 ^ k
last_placed b q m k hb e =
    let whole : 256 ≡ 2 ^ m * 2 ^ k = (ap (λ (t : ℕ). 2 ^ t) (sym e) ∙ two_pow_add m k) in
    bit_or_fields m q (b / 2 ^ k) (
      (div-lt_iff_lt-mul {k = 2 ^ k} {x = b} {y = 2 ^ m} (one-le-pow k 2 (omega arith))).1
        (omega (arith, whole)))

-- A byte that is not the last goes in front of s bits.
byte_placed :
    (b q s : ℕ)
    → b < 256
    → 8 + s ≤ 64
    → bit_or (q * 2 ^ (8 + s)) (b * 2 ^ s % 2 ^ 64) ≡ (q * 2 ^ 8 + b) * 2 ^ s
byte_placed b q s hb few =
    let byte = mul-le-mul_right {m = suc b} {n = 256} (2 ^ s) hb in
    let power = two_pow_add 8 s in
    let small : b * 2 ^ s < 2 ^ (8 + s) =
      omega (arith, byte, power, one-le-pow s 2 (omega arith)) in
    let fits : b * 2 ^ s % 2 ^ 64 ≡ b * 2 ^ s = omega (arith, small, two_pow-le (8 + s) few) in
    rw fits (bit_or_fields (8 + s) q (b * 2 ^ s) small ∙ omega (arith, ap (λ (t : ℕ). q * t) power))

place_bytes_lem :
    (b : ℕ) (bs : Bytes) (q m k : ℕ)
    → All IsByte (b ∷ bs)
    → k < 8
    → m ≤ 64
    → m + k ≡ 8 * length (b ∷ bs)
    → place_bytes k (q * 2 ^ m) (b ∷ bs) ≡ done (q * 2 ^ m + be (b ∷ bs) / 2 ^ k)
unfolding place_bytes
place_bytes_lem b [] q m k h hk few e =
    let one : be (b ∷ []) ≡ b = unfold be_from in omega arith in
    rw one (ap done (last_placed b q m k h.0 e))
place_bytes_lem b (c ∷ bs) q m k h hk few e =
    let s = m - 8 in
    let sum : m ≡ 8 + s = omega arith in
    let shift : 8 * length (c ∷ bs) - k ≡ s = omega arith in
    let enough : ltb (8 * length (c ∷ bs)) k ≡ false = ground arith in
    let rest = place_bytes_lem c bs (q * 2 ^ 8 + b) s k h.1 hk (omega arith) (omega arith) in
    let behind = whole_byte b q s k (c ∷ bs) (omega arith) in
    rw (enough, sum, shift)
      (ap (λ (t : ℕ). place_bytes k t (c ∷ bs)) (byte_placed b q s h.0 (omega arith))
        ∙ rest
        ∙ ap done behind)

unused_lem :
    (bs : Bytes) (n k : ℕ)
    → length bs ≤ 8
    → n + k ≡ 8 * length bs
    → bits_unused (record { octets = bs; num_bits = n }) ≡ some k
unfolding bits_unused
unused_lem bs n k few e =
    let positive : ltb 0x7fffffffffffffff n ≡ false = ground arith in
    let enough : ltb (8 * length bs) n ≡ false = ground arith in
    rw (positive, enough) (ap some (omega arith))

placed :
    (bs : Bytes) (n k : ℕ)
    → All IsByte bs
    → 1 ≤ length bs
    → length bs ≤ 8
    → k < 8
    → n + k ≡ 8 * length bs
    → bit_string_to_uint64 (record { octets = bs; num_bits = n }) ≡ done (be bs / 2 ^ k)
unfolding bit_string_to_uint64
placed [] n k h some_bytes few hk e = absurd (omega arith)
placed (b ∷ bs) n k h some_bytes few hk e =
    let sized : length (b ∷ bs) == 0 || ltb 8 (length (b ∷ bs)) ≡ false = ground arith in
    let start : 0 ≡ 0 * 2 ^ n = omega arith in
    rw (sized, unused_lem (b ∷ bs) n k few e)
      (ap (λ (t : ℕ). place_bytes k t (b ∷ bs)) start
        ∙ place_bytes_lem b bs 0 n k h hk (omega arith) e
        ∙ ap done (omega arith))

-- On a bit string of one to eight bytes, of which the last has some bits, `BitStringToUint64` does not
-- panic and gives the number that `extractCellIDValue` gives.
pub bit_string_to_uint64-extract :
    (asn : BitString) (k : ℕ)
    → All IsByte asn.octets
    → 1 ≤ length asn.octets
    → length asn.octets ≤ 8
    → k < 8
    → asn.num_bits + k ≡ 8 * length asn.octets
    → bit_string_to_uint64 asn ≡ done (extract_cell_id_value asn)
bit_string_to_uint64-extract asn k h some_bytes few hk e =
    rw (extract_cell_id_value_lem asn k h (omega arith) e)
      (placed asn.octets asn.num_bits k h some_bytes few hk e)
