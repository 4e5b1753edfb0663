-- ===== src/Asn1/Build.antt =====
-- The 5G-S-TMSI from its two parts.
use central_unit.Base.{
  ℕ, zero, suc, ◌+◌, ◌-◌, ◌*◌, ◌%◌, ◌^◌, ◌≤◌, ◌<◌, ◌≡◌, ◌↔◌, ◌∙◌, sym, refl, ap, inl, inr, true,
  false, Bool-cases, [], ◌∷◌, ◌++◌, length, take, drop, replicate, take-append-drop, length-append,
  length-drop, length-replicate, All, All-append, All-drop, some, ltb, ◌==◌, bit_or, arith,
}
use native.Mathlib.Nat.{pow-le-pow_right}
use central_unit.Base.Bits.{bit_or_fields}
use central_unit.Bytes.{Bytes, IsByte, be_from, be, put_be}
use central_unit.Bytes.Laws.{be-lt, be_from-append, be_from_lem, be-put_be, put_be-IsByte}
use central_unit.Asn1.{
  BitString, FiveGsTmsi, strip_zeros, big_bytes, pad_to_six, build_5gs_tmsi, decode_5gs_tmsi,
}
use central_unit.Asn1.Tmsi.{decode_5gs_tmsi_lem}

be-strip_zeros : (xs : Bytes) → be (strip_zeros xs) ≡ be xs
unfolding strip_zeros be_from
be-strip_zeros [] = refl
be-strip_zeros (b ∷ bs) = let rest = be-strip_zeros bs in ground arith

strip_zeros-IsByte : (xs : Bytes) → All IsByte xs → All IsByte (strip_zeros xs)
unfolding strip_zeros
strip_zeros-IsByte [] h = tt
strip_zeros-IsByte (b ∷ bs) h = elim (Bool-cases (b == 0)) [
  | inl e ↦ rw e (strip_zeros-IsByte bs h.1)
  | inr e ↦ rw e h
]

be-zeros : (n : ℕ) (xs : Bytes) → be (replicate n 0 ++ xs) ≡ be xs
unfolding be_from
be-zeros zero xs = refl
be-zeros (suc n) xs = be-zeros n xs

replicate-IsByte : (n : ℕ) → All IsByte (replicate n 0)
replicate-IsByte zero = tt
replicate-IsByte (suc n) = (omega arith, replicate-IsByte n)

pad_to_six-zeros : (b : Bytes) → length b ≤ 6 → pad_to_six b ≡ replicate (6 - length b) 0 ++ b
unfolding pad_to_six
pad_to_six-zeros b h = elim (Bool-cases (ltb (length b) 6)) [
  | inl e ↦ let fits : ltb 6 (length b) ≡ false = ground arith in rw (fits, e) refl
  | inr e ↦
      let fits : ltb 6 (length b) ≡ false = ground arith in
      let full : 6 - length b ≡ 0 = ground arith in rw (fits, e, full) refl
]

-- Six bytes that stand for the low 48 bits of a number.
record IsSix (x : Bytes) (v : ℕ) : Type 0 where
  six : length x ≡ 6
  octets : All IsByte x
  value : be x ≡ v % 2 ^ 48

short-IsSix : (b : Bytes) → length b ≤ 6 → All IsByte b → IsSix (pad_to_six b) (be b)
short-IsSix b len h = rw (pad_to_six-zeros b len) (record {
  six = omega (
    arith,
    length-append (replicate (6 - length b) 0) b,
    length-replicate {A = ℕ} (6 - length b) 0,
  );
  octets = All-append IsByte (replicate (6 - length b) 0) b (replicate-IsByte (6 - length b)) h;
  value =
      let small = be-lt b h in
      let grow = pow-le-pow_right {n = 256} (omega arith) len in
      let limit : be b < 2 ^ 48 = omega arith in
      be-zeros (6 - length b) b ∙ (let e : be b ≡ be b % 2 ^ 48 = omega arith in e);
})

-- Of more than six bytes the last six are left.
pad_to_six-drop : (b : Bytes) → 6 < length b → pad_to_six b ≡ drop (length b - 6) b
unfolding pad_to_six
pad_to_six-drop b h = let long : ltb 6 (length b) ≡ true = ground arith in rw long refl

be-drop :
    (b : Bytes) (k : ℕ) → length (drop k b) ≡ 6 → be b ≡ be (take k b) * 256 ^ 6 + be (drop k b)
be-drop b k six =
    ap be (sym (take-append-drop k b))
    ∙ be_from-append 0 (take k b) (drop k b)
    ∙ be_from_lem (be (take k b)) (drop k b)
    ∙ ap (λ (n : ℕ). be (take k b) * 256 ^ n + be (drop k b)) six

long-IsSix : (b : Bytes) → 6 < length b → All IsByte b → IsSix (pad_to_six b) (be b)
long-IsSix b len h =
    let k = length b - 6 in
    let six : length (drop k b) ≡ 6 = omega (arith, length-drop k b) in
    let octets = All-drop IsByte k b h in
    let small : be (drop k b) < 256 ^ 6 = rw six at (be-lt (drop k b) octets) in
    let parts = be-drop b k six in
    rw (pad_to_six-drop b len) (record { six = six; octets = octets; value = omega arith })

padded-IsSix : (b : Bytes) → All IsByte b → IsSix (pad_to_six b) (be b)
padded-IsSix b h = elim (Bool-cases (ltb 6 (length b))) [
  | inl e ↦ long-IsSix b (ground arith) h
  | inr e ↦ short-IsSix b (ground arith) h
]

big_bytes-IsSix : (w v : ℕ) → v < 256 ^ w → IsSix (pad_to_six (big_bytes w v)) v
big_bytes-IsSix w v fits =
    let stripped = be-strip_zeros (put_be w v) ∙ be-put_be w v fits in
    let padded =
      padded-IsSix (big_bytes w v) (strip_zeros-IsByte (put_be w v) (put_be-IsByte w v)) in
    record {
      six = padded.six;
      octets = padded.octets;
      value = padded.value ∙ ap (λ (n : ℕ). n % 2 ^ 48) stripped;
    }

-- The bits of the two parts, shifted as the parts are, do not overlap.
joined_bits :
    (v2 v1 : ℕ) → v1 < 2 ^ 39 → bit_or (v2 * 2 ^ 7 * 2 ^ 39) (v1 * 2) ≡ v2 * 2 ^ 46 + v1 * 2
joined_bits v2 v1 h =
    let shifted : v2 * 2 ^ 7 * 2 ^ 39 ≡ v2 * 2 ^ 46 = omega arith in
    rw shifted (bit_or_fields 46 v2 (v1 * 2) (omega arith))

build-IsSix :
    (part2 part1 : BitString) (v2 v1 : ℕ)
    → length part2.octets ≡ 2
    → length part1.octets ≡ 5
    → be part2.octets ≡ v2 * 2 ^ 7
    → be part1.octets ≡ v1 * 2
    → v2 < 2 ^ 9
    → v1 < 2 ^ 39
    → IsSix (build_5gs_tmsi part2 part1) (v2 * 2 ^ 46 + v1 * 2)
unfolding build_5gs_tmsi
build-IsSix part2 part1 v2 v1 two five second first high low =
    rw (two, five, second, first, joined_bits v2 v1 low)
      (big_bytes-IsSix 12 (v2 * 2 ^ 46 + v1 * 2) (omega arith))

right_iff :
    (v2 v1 : ℕ)
    → v2 < 2 ^ 9
    → v1 < 2 ^ 39
    → ((v2 * 2 ^ 46 + v1 * 2) % 2 ^ 48 ≡ v2 * 2 ^ 39 + v1) ↔ ((v2 ≡ 0) × (v1 ≡ 0))
right_iff v2 v1 high low = (λ e. (omega arith, omega arith), λ (z, o). rw (z, o) refl)

-- The two parts of a 5G-S-TMSI as bit strings of 9 and of 39 bits, left-aligned in two and five bytes, as
-- `extractSTMSI` and `extractRandomValue` read theirs: v2 and v1 are their values. What is built from
-- them is decoded, and the AMF set, the pointer and the TMSI that come out are, joined, the low 48
-- bits of v2 times 2^46 plus v1 times 2. That is the identity of the two parts, v2 times 2^39 plus v1,
-- only where both parts are zero.
pub build-decode :
    (part2 part1 : BitString) (v2 v1 : ℕ)
    → length part2.octets ≡ 2
    → length part1.octets ≡ 5
    → be part2.octets ≡ v2 * 2 ^ 7
    → be part1.octets ≡ v1 * 2
    → v2 < 2 ^ 9
    → v1 < 2 ^ 39
    → (t : FiveGsTmsi) × (decode_5gs_tmsi (build_5gs_tmsi part2 part1) ≡ some t)
      × (be t.amf_set_id.octets * 2 ^ 38 + be t.amf_pointer.octets * 2 ^ 32 + be t.five_g_tmsi
          ≡ (v2 * 2 ^ 46 + v1 * 2) % 2 ^ 48)
      × ((be t.amf_set_id.octets * 2 ^ 38 + be t.amf_pointer.octets * 2 ^ 32 + be t.five_g_tmsi
            ≡ v2 * 2 ^ 39 + v1)
          ↔ ((v2 ≡ 0) × (v1 ≡ 0)))
build-decode part2 part1 v2 v1 two five second first high low =
    let b = build-IsSix part2 part1 v2 v1 two five second first high low in
    let (t, decoded, set, pointer, tmsi, joined) =
      decode_5gs_tmsi_lem (build_5gs_tmsi part2 part1) b.six b.octets in
    let value = joined ∙ b.value in (t, decoded, value, rw value (right_iff v2 v1 high low))
