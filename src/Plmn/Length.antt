-- ===== src/Plmn/Length.antt =====
-- Which texts `GetMccAndMncInOctets` can encode.
use central_unit.Base.{
  ◌+◌, ◌≤◌, ◌<◌, ◌≡◌, refl, ◌⊎◌, ◌↔◌, inl, inr, [], ◌∷◌, length, done, panic, arith,
}
use central_unit.Bytes.{Bytes}
use central_unit.Plmn.{
  reverse_onto, reverse, octet_digits_two, octet_digits_three, octet_digits,
  get_mcc_and_mnc_in_octets,
}

length-reverse_onto : (aux s : Bytes) → length (reverse_onto aux s) ≡ length aux + length s
unfolding reverse_onto
length-reverse_onto aux [] = omega arith
length-reverse_onto aux (c ∷ s) = omega (arith, length-reverse_onto (c ∷ aux) s)

-- The digits are all there, or an index is out of range.
octet_digits-cases :
    (mcc mnc : Bytes)
    → ((d : Bytes) × (octet_digits mcc mnc ≡ done d) × (3 ≤ length mcc) × (2 ≤ length mnc))
      ⊎ ((octet_digits mcc mnc ≡ panic) × ((length mcc < 3) ⊎ (length mnc < 2)))
unfolding octet_digits octet_digits_two octet_digits_three
octet_digits-cases [] mnc = inr (ground arith, inl (omega arith))
octet_digits-cases (a ∷ []) mnc = inr (ground arith, inl (omega arith))
octet_digits-cases (a ∷ b ∷ []) mnc = inr (ground arith, inl (omega arith))
octet_digits-cases (a ∷ b ∷ c ∷ mcc) [] = inr (refl, inr (omega arith))
octet_digits-cases (a ∷ b ∷ c ∷ mcc) (x ∷ []) = inr (refl, inr (omega arith))
octet_digits-cases (a ∷ b ∷ c ∷ mcc) (x ∷ y ∷ []) = inl (_, refl, omega arith, omega arith)
octet_digits-cases (a ∷ b ∷ c ∷ mcc) (x ∷ y ∷ z ∷ mnc) =
    inl (b ∷ c ∷ z ∷ a ∷ x ∷ y ∷ [], ground arith, omega arith, omega arith)

-- The encoding panics exactly where the MCC has less than three bytes or the MNC less than two.
pub octets_panic_iff :
    (mcc mnc : Bytes)
    → (get_mcc_and_mnc_in_octets mcc mnc ≡ panic) ↔ ((length mcc < 3) ⊎ (length mnc < 2))
unfolding get_mcc_and_mnc_in_octets reverse
octets_panic_iff mcc mnc = ground (
  arith,
  octet_digits-cases (reverse mcc) (reverse mnc),
  length-reverse_onto [] mcc,
  length-reverse_onto [] mnc,
)
