-- ===== src/Plmn.antt =====
-- The PLMN identity: `GetMccAndMncInOctets` and `reverse` of internal/context/context_cucp.go,
-- `ConvertMccMnc` of internal/context/amfcontext/amfcontext.go (and the same function in
-- internal/context/uecontext/uecontext.go), `plmnMatches` of internal/context/handle_du.go.
-- A string is the list of its bytes, and is UTF-8, as the decoder of the configuration gives it.
-- `reverse` goes by runes: those of ASCII are the bytes, and of a longer one the bytes come out in
-- another order, each of which `hex.DecodeString` refuses in the same place.
pub mod RoundTrip
pub mod Length
use central_unit.Base.{
  ℕ, Bool, true, false, ◌&&◌, not, List, [], ◌∷◌, ◌++◌, get_elem?, length, ◌==◌, if◌then◌else◌, Run,
  done, panic, must, ◌>>=◌,
}
use central_unit.Bytes.{Bytes, equal}
use central_unit.Bytes.Hex.{decode_string}

-- `for _, valor := range s { aux = string(valor) + aux }`
reverse_onto : Bytes → Bytes → Bytes
reverse_onto aux [] = aux
reverse_onto aux (valor ∷ s) = reverse_onto (valor ∷ aux) s

unfoldable pub reverse : Bytes → Bytes
unfolding reverse_onto
reverse s = reverse_onto [] s

-- An index out of range panics.
abbrev pub at {ℓ} : {A : Type ℓ} → List A → ℕ → Run A
at s i = must (get_elem? s i)

octet_digits_two : Bytes → Bytes → Run Bytes
octet_digits_two mcc mnc = do
  a ← at mcc 1
  b ← at mcc 2
  c ← at mcc 0
  d ← at mnc 0
  e ← at mnc 1
  done (a ∷ b ∷ b'f' ∷ c ∷ d ∷ e ∷ [])

octet_digits_three : Bytes → Bytes → Run Bytes
octet_digits_three mcc mnc = do
  a ← at mcc 1
  b ← at mcc 2
  x ← at mnc 2
  c ← at mcc 0
  d ← at mnc 0
  e ← at mnc 1
  done (a ∷ b ∷ x ∷ c ∷ d ∷ e ∷ [])

-- The six digits in the order in which they are packed.
octet_digits : Bytes → Bytes → Run Bytes
unfolding octet_digits_two octet_digits_three
octet_digits mcc mnc =
    if length mnc == 2 then octet_digits_two mcc mnc else octet_digits_three mcc mnc

-- The error of `hex.DecodeString` is dropped, and the bytes before it are used.
unfoldable pub get_mcc_and_mnc_in_octets : Bytes → Bytes → Run Bytes
unfolding reverse octet_digits
get_mcc_and_mnc_in_octets mcc mnc = do
  res ← octet_digits (reverse mcc) (reverse mnc)
  done (decode_string res).0

convert_two : Bytes → Run (Bytes × Bytes)
convert_two plmn = do
  a ← at plmn 1
  b ← at plmn 0
  c ← at plmn 3
  d ← at plmn 5
  e ← at plmn 4
  done (a ∷ b ∷ c ∷ [], d ∷ e ∷ [])

convert_three : Bytes → Run (Bytes × Bytes)
convert_three plmn = do
  a ← at plmn 1
  b ← at plmn 0
  c ← at plmn 3
  x ← at plmn 2
  d ← at plmn 5
  e ← at plmn 4
  done (a ∷ b ∷ c ∷ [], x ∷ d ∷ e ∷ [])

unfoldable pub convert_mcc_mnc : Bytes → Run (Bytes × Bytes)
unfolding convert_two convert_three
convert_mcc_mnc plmn = do
  flag ← at plmn 2
  if flag == b'f' then convert_two plmn else convert_three plmn

-- The three comparisons of the loop are those of `equal`, once both lengths are 3.
unfoldable pub plmn_matches : Bytes → Bytes → Bool
unfolding equal
plmn_matches plmn1 plmn2 =
    if not (length plmn1 == length plmn2)
    then false
    else if not (length plmn1 == 3)
    then false
    else equal plmn1 plmn2
