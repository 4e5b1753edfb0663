-- ===== src/Asn1.antt =====
-- Bit strings and the 5G-S-TMSI: internal/common/utils/asn1.go, and `extractCellIDValue` and
-- `cellIDsMatch` of internal/context/handle_du.go. A uint64 is a number below 2^64; `<<` wraps and
-- `|` is bitwise.
pub mod Words
pub mod Tmsi
pub mod Build
pub mod ReadBits
pub mod Uint64
use central_unit.Base.{
  ℕ, zero, suc, ◌+◌, ◌-◌, ◌*◌, ◌/◌, ◌%◌, ◌^◌, bit_and, bit_or, Bool, true, false, ◌||◌, List, [],
  ◌∷◌, ◌++◌, length, drop, replicate, ltb, ◌==◌, if◌then◌else◌, Option, none, some, Run, done,
  panic, min,
}
use central_unit.Bytes.{Bytes, be_from, be, put_be}

pub record BitString : Type 0 where
  pub octets : Bytes
  pub num_bits : ℕ

-- `aper.BitString{}`
abbrev pub no_bits : BitString
no_bits = record { octets = []; num_bits = 0 }

pub record FiveGsTmsi : Type 0 where
  pub amf_set_id : BitString
  pub amf_pointer : BitString
  pub five_g_tmsi : Bytes

-- `for … { val = (val << 8) | uint64(b) }`
unfoldable pub shift_in : ℕ → Bytes → ℕ
shift_in val [] = val
shift_in val (b ∷ bs) = shift_in (bit_or (val * 2 ^ 8 % 2 ^ 64) b) bs

unfoldable pub strip_zeros : Bytes → Bytes
strip_zeros [] = []
strip_zeros (b ∷ bs) = if b == 0 then strip_zeros bs else b ∷ bs

-- `big.Int.Bytes` of a number that fits w bytes: big-endian, with no leading zero.
abbrev pub big_bytes : ℕ → ℕ → Bytes
big_bytes w v = strip_zeros (put_be w v)

unfoldable pub pad_to_six : Bytes → Bytes
pad_to_six b =
    if ltb 6 (length b)
    then drop (length b - 6) b
    else if ltb (length b) 6
    then replicate (6 - length b) 0 ++ b
    else b

-- The two parts as integers, the second shifted by 39 bits; five bytes more than both hold it.
unfoldable pub build_5gs_tmsi : BitString → BitString → Bytes
unfolding be_from pad_to_six
build_5gs_tmsi part2 part1 =
    let res = bit_or (be part2.octets * 2 ^ 39) (be part1.octets) in
    pad_to_six (big_bytes (length part2.octets + 5 + length part1.octets) res)

-- `none` is the error for any length but 6.
unfoldable pub decode_5gs_tmsi : Bytes → Option FiveGsTmsi
unfolding shift_in put_be
decode_5gs_tmsi tmsi =
    let val = shift_in 0 tmsi in
    if length tmsi == 6
    then some (record {
      amf_set_id = record { octets = put_be 2 (val / 2 ^ 38 % 2 ^ 16); num_bits = 10 };
      amf_pointer = record { octets = bit_and (val / 2 ^ 32) 0x3f % 2 ^ 8 ∷ []; num_bits = 9 };
      five_g_tmsi = put_be 4 (val % 2 ^ 32);
    })
    else none

-- The loop of `extractSTMSI` and `extractCellIDValue`: eight bits of each byte while so many are
-- left to read, then the high bits of one more byte.
unfoldable pub read_bits : ℕ → ℕ → Bytes → ℕ
read_bits value zero bs = value
read_bits value (suc left) [] = value
read_bits value (suc left) (b ∷ bs) =
    let bits = if ltb (suc left) 8 then suc left else 8 in
    read_bits (bit_or (value * 2 ^ bits % 2 ^ 64) (b / 2 ^ (8 - bits))) (suc left - bits) bs

-- `int(numBits)`, cut at 64; a count past 2^63 is negative as an int, and nothing is read.
abbrev pub bits_to_read : ℕ → ℕ
bits_to_read n = if ltb 0x7fffffffffffffff n then 0 else if ltb 64 n then 64 else n

unfoldable pub extract_s_tmsi : Bytes → ℕ → ℕ
unfolding read_bits
extract_s_tmsi [] num_bits = 0
extract_s_tmsi (b ∷ bs) num_bits = read_bits 0 (bits_to_read num_bits) (b ∷ bs)

unfoldable pub extract_cell_id_value : BitString → ℕ
unfolding read_bits
extract_cell_id_value cell_id = elim cell_id.octets [
  | [] ↦ 0
  | b ∷ bs ↦ read_bits 0 (bits_to_read cell_id.num_bits) (b ∷ bs)
]

unfoldable pub cell_ids_match : BitString → ℕ → Bool
unfolding extract_cell_id_value
cell_ids_match cell_id1 cell_id2 = extract_cell_id_value cell_id1 == cell_id2

-- `padded[8-len(data):]` panics on more than eight bytes.
unfoldable pub extract_uint64_from_bytes : Bytes → Run ℕ
unfolding be_from
extract_uint64_from_bytes data' =
    if ltb 8 (length data') then panic else done (be (replicate (8 - length data') 0 ++ data'))

-- Five bytes are 39 bits and one unused; of more, the first five are read; fewer, all.
unfoldable pub extract_random_value : Bytes → ℕ
unfolding shift_in
extract_random_value (a ∷ b ∷ c ∷ d ∷ e ∷ []) = shift_in 0 (a ∷ b ∷ c ∷ d ∷ e ∷ []) / 2
extract_random_value (a ∷ b ∷ c ∷ d ∷ e ∷ f ∷ rest) = shift_in 0 (a ∷ b ∷ c ∷ d ∷ e ∷ [])
extract_random_value short = shift_in 0 short

-- The bytes before the last go to the left and the last one to the right, each by a number of bits
-- that is negative, and panics, where more than a byte is unused. `acc` is the result so far.
unfoldable pub place_bytes : ℕ → ℕ → Bytes → Run ℕ
place_bytes unused acc [] = panic
place_bytes unused acc (b ∷ []) = done (bit_or acc (b / 2 ^ unused))
place_bytes unused acc (b ∷ c ∷ rest) =
    let shift = 8 * length (c ∷ rest) - unused in
    let next = place_bytes unused (bit_or acc (b * 2 ^ shift % 2 ^ 64)) (c ∷ rest) in
    if ltb (8 * length (c ∷ rest)) unused then panic else next

-- `(len(asn.Bytes) * 8) - int(asn.NumBits)`; `none` is negative. A count past 2^63 is negative as an
-- int.
unfoldable pub bits_unused : BitString → Option ℕ
bits_unused asn =
    if ltb 0x7fffffffffffffff asn.num_bits
    then some (8 * length asn.octets + (2 ^ 64 - asn.num_bits))
    else if ltb (8 * length asn.octets) asn.num_bits
    then none
    else some (8 * length asn.octets - asn.num_bits)

unfoldable pub bit_string_to_uint64 : BitString → Run ℕ
unfolding place_bytes bits_unused
bit_string_to_uint64 asn =
    if length asn.octets == 0 || ltb 8 (length asn.octets)
    then panic
    else elim (bits_unused asn) [ none ↦ panic | some unused ↦ place_bytes unused 0 asn.octets ]
