-- ===== src/Asn1/ReadBits.antt =====
-- The bit reader of `extractCellIDValue` and `extractSTMSI` against its meaning: the first bits of
-- the string as one number.
use central_unit.Base.{
  Bool-cases, ℕ, zero, suc, ◌+◌, ◌-◌, ◌*◌, ◌/◌, ◌%◌, ◌^◌, ◌≤◌, ◌<◌, ◌≡◌, refl, inl, inr, ◌∙◌, sym,
  ap, [], ◌∷◌, length, All, arith, bit_or, ltb, if◌then◌else◌,
}
use central_unit.Base.Bits.{bit_or_fields}
use central_unit.Bytes.{Bytes, IsByte, be_from, be}
use central_unit.Bytes.Laws.{be_from_lem, be-lt}
use central_unit.Asn1.{BitString, read_bits, bits_to_read, extract_cell_id_value}
use native.Mathlib.Nat.{
  pow-suc, one-le-pow, div-div-eq-div-mul, mul-add-div_right, div-lt_iff_lt-mul, div-eq_of_lt,
  mul-le-mul_left, mul-le-mul_right,
}

pub two_pow_add : (a b : ℕ) → 2 ^ (a + b) ≡ 2 ^ a * 2 ^ b
two_pow_add a zero = let e : a + 0 ≡ a = omega arith in omega (arith, ap (λ (t : ℕ). 2 ^ t) e)
two_pow_add a (suc b) = omega (
  arith,
  (let e : a + suc b ≡ suc (a + b) = omega arith in ap (λ (t : ℕ). 2 ^ t) e),
  pow-suc 2 (a + b),
  two_pow_add a b,
  ap (λ (t : ℕ). 2 ^ a * t) (pow-suc 2 b),
)

byte_pow : (l : ℕ) → 256 ^ l ≡ 2 ^ (8 * l)
byte_pow zero = refl
byte_pow (suc l) = omega (
  arith,
  pow-suc 256 l,
  byte_pow l,
  two_pow_add (8 * l) 8,
  (let e : 8 * suc l ≡ 8 * l + 8 = omega arith in ap (λ (t : ℕ). 2 ^ t) e),
)

-- A byte b in front of r, which is below q.
div_first : (b r q d : ℕ) → r < q → (b * q + r) / (q * 2 ^ d) ≡ b / 2 ^ d
div_first b r q d small =
    sym (div-div-eq-div-mul (b * q + r) q (2 ^ d))
    ∙ ap (λ (t : ℕ). t / 2 ^ d)
        (mul-add-div_right {m = q} (omega arith) b r
          ∙ (let none_left = div-eq_of_lt small in omega (arith, none_left)))

be-cons : (b : ℕ) (bs : Bytes) → be (b ∷ bs) ≡ b * 256 ^ length bs + be bs
unfolding be_from
be-cons b bs = omega (arith, be_from_lem (0 * 256 + b) bs)

-- The last byte, of which only the n high bits are read.
last_byte :
    (b value n k : ℕ) (bs : Bytes)
    → All IsByte (b ∷ bs)
    → n < 8
    → n + k ≡ 8 * length (b ∷ bs)
    → value * 2 ^ n + 2 ^ n ≤ 2 ^ 64
    → bit_or (value * 2 ^ n % 2 ^ 64) (b / 2 ^ (8 - n)) ≡ value * 2 ^ n + be (b ∷ bs) / 2 ^ k
last_byte b value n k bs h few e fits =
    let d = 8 - n in
    let whole : 256 ≡ 2 ^ n * 2 ^ d =
      (let nd : 8 ≡ n + d = omega arith in ap (λ (t : ℕ). 2 ^ t) nd ∙ two_pow_add n d) in
    let unused : 2 ^ k ≡ 256 ^ length bs * 2 ^ d =
      (let ke : k ≡ 8 * length bs + d = omega arith in
        ap (λ (t : ℕ). 2 ^ t) ke
        ∙ two_pow_add (8 * length bs) d
        ∙ ap (λ (t : ℕ). t * 2 ^ d) (sym (byte_pow (length bs)))) in
    let high : b / 2 ^ d < 2 ^ n =
      (div-lt_iff_lt-mul {k = 2 ^ d} {x = b} {y = 2 ^ n} (one-le-pow d 2 (omega arith))).1
        (omega (arith, whole, h.0)) in
    let first = be-cons b bs in
    let rest = div_first b (be bs) (256 ^ length bs) d (be-lt bs h.1) in
    let fit : value * 2 ^ n % 2 ^ 64 ≡ value * 2 ^ n =
      omega (arith, one-le-pow n 2 (omega arith)) in
    rw (unused, first, rest, fit) (bit_or_fields n value (b / 2 ^ d) high)

-- A byte that is read whole.
pub whole_byte :
    (b value m k : ℕ) (bs : Bytes)
    → m + k ≡ 8 * length bs
    → (value * 2 ^ 8 + b) * 2 ^ m + be bs / 2 ^ k ≡ value * 2 ^ (8 + m) + be (b ∷ bs) / 2 ^ k
whole_byte b value m k bs e =
    let all : 256 ^ length bs ≡ 2 ^ m * 2 ^ k =
      (byte_pow (length bs) ∙ ap (λ (t : ℕ). 2 ^ t) (sym e) ∙ two_pow_add m k) in
    let assoc : b * (2 ^ m * 2 ^ k) ≡ b * 2 ^ m * 2 ^ k = omega arith in
    let split = mul-add-div_right {m = 2 ^ k} (one-le-pow k 2 (omega arith)) (b * 2 ^ m) (be bs) in
    rw (be-cons b bs, all, assoc, split)
      (omega (arith, two_pow_add 8 m, ap (λ (t : ℕ). value * t) (two_pow_add 8 m)))

-- One round, which reads `bits` bits and leaves `left`.
one_round :
    (b value n bits left : ℕ) (bs : Bytes)
    → (if ltb (suc n) 8 then suc n else 8) ≡ bits
    → suc n - bits ≡ left
    → read_bits value (suc n) (b ∷ bs)
      ≡ read_bits (bit_or (value * 2 ^ bits % 2 ^ 64) (b / 2 ^ (8 - bits))) left bs
unfolding read_bits
one_round b value n bits left bs e l =
    ap (λ (t : ℕ). read_bits (bit_or (value * 2 ^ t % 2 ^ 64) (b / 2 ^ (8 - t))) (suc n - t) bs) e
    ∙ ap (λ (t : ℕ). read_bits (bit_or (value * 2 ^ bits % 2 ^ 64) (b / 2 ^ (8 - bits))) t bs) l

-- Where n bits are there, and n bits behind the value fit 64, they are read behind the value.
read_bits_lem :
    (bs : Bytes) (value n k : ℕ)
    → All IsByte bs
    → n + k ≡ 8 * length bs
    → value * 2 ^ n + 2 ^ n ≤ 2 ^ 64
    → read_bits value n bs ≡ value * 2 ^ n + be bs / 2 ^ k
unfolding read_bits
read_bits_lem bs value zero k h e fits =
    let wide : 256 ^ length bs ≡ 2 ^ k =
      (let ke : 8 * length bs ≡ k = omega arith in
        byte_pow (length bs) ∙ ap (λ (t : ℕ). 2 ^ t) ke) in
    let none_left : be bs / 2 ^ k ≡ 0 = div-eq_of_lt (rw wide at (be-lt bs h)) in
    omega (arith, none_left)
read_bits_lem [] value (suc n) k h e fits = absurd (omega arith)
read_bits_lem (b ∷ bs) value (suc n) k h e fits = elim (Bool-cases (ltb (suc n) 8)) [
  | inl few ↦
      one_round b value n (suc n) 0 bs (rw few refl) (omega arith)
      ∙ last_byte b value (suc n) k bs h (ground arith) e fits
  | inr many ↦
      let m = suc n - 8 in
      let sum : suc n ≡ 8 + m = ground arith in
      let power : 2 ^ suc n ≡ 256 * 2 ^ m = (ap (λ (t : ℕ). 2 ^ t) sum ∙ two_pow_add 8 m) in
      let room : value * (256 * 2 ^ m) + 256 * 2 ^ m ≤ 2 ^ 64 = rw power at fits in
      let below = mul-le-mul_left (value * 256) (one-le-pow m 2 (omega arith)) in
      let byte = mul-le-mul_right {m = suc b} {n = 256} (2 ^ m) h.0 in
      let small : value * 2 ^ 8 % 2 ^ 64 ≡ value * 2 ^ 8 =
        omega (arith, room, below, one-le-pow m 2 (omega arith)) in
      let next = whole_byte b value m k bs (omega arith) in
      let joined : bit_or (value * 2 ^ 8 % 2 ^ 64) (b / 2 ^ 0) ≡ value * 2 ^ 8 + b =
        (let whole : b / 2 ^ 0 ≡ b = omega arith in
          rw (small, whole) (bit_or_fields 8 value b h.0)) in
      let rest =
        read_bits_lem bs (value * 2 ^ 8 + b) m k h.1 (omega arith) (omega (arith, room, byte)) in
      one_round b value n 8 m bs (rw many refl) (omega arith)
      ∙ ap (λ (t : ℕ). read_bits t m bs) joined
      ∙ rest
      ∙ next
      ∙ ap (λ (t : ℕ). value * 2 ^ t + be (b ∷ bs) / 2 ^ k) (sym sum)
]

pub two_pow-le : (n : ℕ) → n ≤ 64 → 2 ^ n ≤ 2 ^ 64
two_pow-le n few =
    let e : n + (64 - n) ≡ 64 = omega arith in
    let whole = sym (two_pow_add n (64 - n)) ∙ ap (λ (t : ℕ). 2 ^ t) e in
    omega (arith, whole, mul-le-mul_left (2 ^ n) (one-le-pow (64 - n) 2 (omega arith)))

extract-be :
    (bs : Bytes) (n k : ℕ)
    → All IsByte bs
    → n ≤ 64
    → n + k ≡ 8 * length bs
    → extract_cell_id_value (record { octets = bs; num_bits = n }) ≡ be bs / 2 ^ k
unfolding extract_cell_id_value be_from
extract-be [] n k h few e = sym (div-eq_of_lt (one-le-pow k 2 (omega arith)))
extract-be (b ∷ bs) n k h few e =
    let cut : bits_to_read n ≡ n = ground arith in
    let fits : 0 * 2 ^ n + 2 ^ n ≤ 2 ^ 64 = omega (arith, two_pow-le n few) in
    ap (λ (t : ℕ). read_bits 0 t (b ∷ bs)) cut ∙ read_bits_lem (b ∷ bs) 0 n k h e fits ∙ omega arith

-- A cell identity of at most 64 bits, whose bytes have that many and k unused bits behind them, is
-- read as the number that its bits stand for, the unused ones shifted out.
pub extract_cell_id_value_lem :
    (cell : BitString) (k : ℕ)
    → All IsByte cell.octets
    → cell.num_bits ≤ 64
    → cell.num_bits + k ≡ 8 * length cell.octets
    → extract_cell_id_value cell ≡ be cell.octets / 2 ^ k
extract_cell_id_value_lem cell k h few e = extract-be cell.octets cell.num_bits k h few e
