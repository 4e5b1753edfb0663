-- ===== src/Asn1/Tmsi.antt =====
-- The 5G-S-TMSI and its three components.
use central_unit.Base.{
  ℕ, ◌+◌, ◌*◌, ◌/◌, ◌%◌, ◌^◌, ◌<◌, ◌≡◌, ◌≢◌, ◌↔◌, [], ◌∷◌, length, All, arith, none, some, bit_and,
}
use central_unit.Base.Bits.{bit_and_mask}
use central_unit.Bytes.{Bytes, IsByte, be_from, be, put_be}
use central_unit.Bytes.Laws.{be-put_be, be-lt}
use central_unit.Asn1.{FiveGsTmsi, shift_in, decode_5gs_tmsi}
use central_unit.Asn1.Words.{shift_in-be_from}

-- The components of a 48-bit number, as `Decode5GSTMSI` stores them.
components : ℕ → FiveGsTmsi
components val = record {
  amf_set_id = record { octets = put_be 2 (val / 2 ^ 38 % 2 ^ 16); num_bits = 10 };
  amf_pointer = record { octets = bit_and (val / 2 ^ 32) 0x3f % 2 ^ 8 ∷ []; num_bits = 9 };
  five_g_tmsi = put_be 4 (val % 2 ^ 32);
}

be-six : (x : Bytes) → length x ≡ 6 → All IsByte x → (shift_in 0 x ≡ be x) × (be x < 2 ^ 48)
be-six x len h = (
  shift_in-be_from 0 x h (rw len (omega arith)),
  (let lt : be x < 256 ^ 6 = rw len at (be-lt x h) in omega arith),
)

decode-components :
    (x : Bytes) → length x ≡ 6 → All IsByte x → decode_5gs_tmsi x ≡ some (components (be x))
unfolding decode_5gs_tmsi components
decode-components x len h = rw (len, (be-six x len h).0)

components_parts :
    (v : ℕ)
    → (be (components v).amf_set_id.octets ≡ v / 2 ^ 38 % 2 ^ 16)
      × (be (components v).amf_pointer.octets ≡ v / 2 ^ 32 % 2 ^ 6)
      × (be (components v).five_g_tmsi ≡ v % 2 ^ 32)
unfolding components
components_parts v = (
  be-put_be 2 (v / 2 ^ 38 % 2 ^ 16) (omega arith),
  unfold be_from in omega (arith, bit_and_mask 6 (v / 2 ^ 32)),
  be-put_be 4 (v % 2 ^ 32) (omega arith),
)

-- Six bytes decode, and the AMF set (10 bits), the pointer (6 bits) and the TMSI (32 bits) are
-- exactly the 48-bit number that the bytes stand for.
pub decode_5gs_tmsi_lem :
    (x : Bytes)
    → length x ≡ 6
    → All IsByte x
    → (t : FiveGsTmsi) × (decode_5gs_tmsi x ≡ some t)
      × (be t.amf_set_id.octets < 2 ^ 10)
      × (be t.amf_pointer.octets < 2 ^ 6)
      × (be t.five_g_tmsi < 2 ^ 32)
      × (be t.amf_set_id.octets * 2 ^ 38 + be t.amf_pointer.octets * 2 ^ 32 + be t.five_g_tmsi
          ≡ be x)
decode_5gs_tmsi_lem x len h =
    let (set_part, pointer_part, tmsi_part) = components_parts (be x) in
    let small = (be-six x len h).1 in
    (
      components (be x),
      decode-components x len h,
      omega arith,
      omega arith,
      omega arith,
      omega arith,
    )

pub decode_5gs_tmsi_error : (x : Bytes) → (decode_5gs_tmsi x ≡ none) ↔ (length x ≢ 6)
unfolding decode_5gs_tmsi
decode_5gs_tmsi_error x = ground arith
