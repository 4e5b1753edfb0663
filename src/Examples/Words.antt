-- ===== src/Examples/Words.antt =====
-- Sequence numbers, PLMN identities and 5G-S-TMSIs at concrete inputs.
use central_unit.Base.{
  ℕ, panic, ◌⊎◌, ◌+◌, ◌*◌, ◌^◌, ◌<◌, ◌%◌, ◌≡◌, ◌↔◌, refl, [], ◌∷◌, length, some, done, inl, arith,
}
use central_unit.Bytes.{Bytes, be, be_from}
use central_unit.Bytes.Hex.{sprint_hex}
use central_unit.Sqn.{Sqn}
use central_unit.Sqn.Laws.{inc_times, inc_times_lem}
use central_unit.Plmn.{get_mcc_and_mnc_in_octets, convert_mcc_mnc}
use central_unit.Plmn.Length.{octets_panic_iff}
use central_unit.Asn1.ReadBits.{extract_cell_id_value_lem}
use central_unit.Plmn.RoundTrip.{convert-octets}
use central_unit.Asn1.Uint64.{bit_string_to_uint64-extract}
use central_unit.Asn1.{
  bit_string_to_uint64, BitString, FiveGsTmsi, decode_5gs_tmsi, build_5gs_tmsi,
  extract_cell_id_value,
}
use central_unit.Asn1.Build.{build-decode}

abbrev last_sqn : Sqn
last_sqn = record { value = 0xfffffffffffe }

abbrev six : Bytes
six = 0xff ∷ 0x01 ∷ 0x02 ∷ 0x03 ∷ 0x04 ∷ 0x85 ∷ []

inc_times_lem_example : (inc_times 3 last_sqn).value ≡ 1
inc_times_lem_example = inc_times_lem 3 last_sqn (omega arith)

abbrev mcc : Bytes
mcc = b'9' ∷ b'9' ∷ b'8' ∷ []

abbrev mnc : Bytes
mnc = b'7' ∷ b'0' ∷ []

convert-octets_example :
    (octets : Bytes) × (get_mcc_and_mnc_in_octets mcc mnc ≡ done octets)
    × (length octets ≡ 3)
    × (convert_mcc_mnc (sprint_hex octets) ≡ done (mcc, mnc))
convert-octets_example = convert-octets mcc mnc refl (inl refl) (omega arith) (omega arith)

abbrev one_two_three : Bytes
one_two_three = 1 ∷ 2 ∷ 3 ∷ []

-- The AMF set 5, the pointer 2 and the TMSI 3 in 9 and 39 bits, left-aligned.
abbrev high_bits : BitString
high_bits = record { octets = 0x01 ∷ 0x00 ∷ []; num_bits = 9 }

abbrev low_bits : BitString
low_bits = record { octets = 0x84 ∷ 0 ∷ 0 ∷ 0 ∷ 6 ∷ []; num_bits = 39 }

build-decode_example :
    (t : FiveGsTmsi) × (decode_5gs_tmsi (build_5gs_tmsi high_bits low_bits) ≡ some t)
    × (be t.amf_set_id.octets * 2 ^ 38 + be t.amf_pointer.octets * 2 ^ 32 + be t.five_g_tmsi
        ≡ (2 * 2 ^ 46 + 0x4200000003 * 2) % 2 ^ 48)
    × ((be t.amf_set_id.octets * 2 ^ 38 + be t.amf_pointer.octets * 2 ^ 32 + be t.five_g_tmsi
          ≡ 2 * 2 ^ 39 + 0x4200000003)
        ↔ ((◌≡◌ {A = ℕ} 2 0) × (◌≡◌ {A = ℕ} 0x4200000003 0)))
unfolding be_from
build-decode_example =
    build-decode high_bits low_bits 2 0x4200000003 refl refl refl refl (omega arith) (omega arith)

octets_panic_iff_example :
    (get_mcc_and_mnc_in_octets mcc (b'7' ∷ []) ≡ panic)
    ↔ ((length mcc < 3) ⊎ (length {A = ℕ} (b'7' ∷ []) < 2))
octets_panic_iff_example = octets_panic_iff mcc (b'7' ∷ [])

abbrev nr_cell : BitString
nr_cell = record { octets = 0x12 ∷ 0x34 ∷ 0x50 ∷ []; num_bits = 20 }

extract_cell_id_value_lem_example : extract_cell_id_value nr_cell ≡ 0x12345
unfolding be_from
extract_cell_id_value_lem_example =
    extract_cell_id_value_lem nr_cell 4 (omega arith) (omega arith) refl

bit_string_to_uint64-extract_example :
    bit_string_to_uint64 nr_cell ≡ done (extract_cell_id_value nr_cell)
bit_string_to_uint64-extract_example =
    bit_string_to_uint64-extract nr_cell 4 (omega arith) (omega arith) (omega arith) (omega arith)
      refl
