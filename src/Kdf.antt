-- ===== src/Kdf.antt =====
-- The key derivation of internal/context/uecontext/ueauth.go. HMAC-SHA256 (crypto/hmac and
-- crypto/sha256) is a parameter, a function of the key and the message.
pub mod Injective
use central_unit.Base.{
  ℕ, ◌+◌, ◌*◌, ◌/◌, ◌%◌, ◌^◌, Bool, true, false, List, [], ◌∷◌, ◌++◌, length, take, drop, Option,
  none, some, if◌then◌else◌,
}
use central_unit.Bytes.{Bytes, put_be}
use central_unit.Bytes.Hex.{decode_string}

abbrev pub Hmac : Type 0
Hmac = Bytes → Bytes → Bytes

-- The constants `FC_FOR_…_DERIVATION`: hexadecimal text.
abbrev pub fc_ck_prime_ik_prime : Bytes
fc_ck_prime_ik_prime = b'2' ∷ b'0' ∷ []

abbrev pub fc_algorithm_key : Bytes
fc_algorithm_key = b'6' ∷ b'9' ∷ []

abbrev pub fc_kausf : Bytes
fc_kausf = b'6' ∷ b'A' ∷ []

abbrev pub fc_res_star_xres_star : Bytes
fc_res_star_xres_star = b'6' ∷ b'B' ∷ []

abbrev pub fc_kseaf : Bytes
fc_kseaf = b'6' ∷ b'C' ∷ []

abbrev pub fc_kamf : Bytes
fc_kamf = b'6' ∷ b'D' ∷ []

abbrev pub fc_kamf_prime : Bytes
fc_kamf_prime = b'7' ∷ b'2' ∷ []

abbrev pub fc_kgnb_kn3iwf : Bytes
fc_kgnb_kn3iwf = b'6' ∷ b'E' ∷ []

abbrev pub fc_nh : Bytes
fc_nh = b'6' ∷ b'F' ∷ []

-- `uint16(len(input))` in two bytes.
unfoldable pub kdf_len : Bytes → Bytes
unfolding put_be
kdf_len input = put_be 2 (length input % 2 ^ 16)

-- `for _, p := range param { s = append(append(s, p...), kdfLen(p)...) }`
unfoldable pub append_params : Bytes → List Bytes → Bytes
append_params s [] = s
append_params s (p ∷ ps) = append_params ((s ++ p) ++ kdf_len p) ps

-- The message of the HMAC; an error of `hex.DecodeString` is `none`.
unfoldable pub kdf_input : Bytes → List Bytes → Option Bytes
unfolding append_params kdf_len
kdf_input fc params =
    if (decode_string fc).1 then some (append_params (decode_string fc).0 params) else none

-- The error of `kdf.Write` is always nil.
unfoldable pub kdf : Hmac → Bytes → Bytes → List Bytes → Option Bytes
unfolding kdf_input
kdf hmac key fc params = elim (kdf_input fc params) [ none ↦ none | some s ↦ some (hmac key s) ]

unfoldable pub seaf_key : Hmac → Bytes → List Bytes → Option Bytes
unfolding kdf
seaf_key hmac key p = kdf hmac key fc_kseaf p

unfoldable pub alg_key : Hmac → Bytes → List Bytes → Option Bytes
unfolding kdf
alg_key hmac key p = kdf hmac key fc_algorithm_key p

unfoldable pub ran_key : Hmac → Bytes → List Bytes → Option Bytes
unfolding kdf
ran_key hmac key p = kdf hmac key fc_kgnb_kn3iwf p

unfoldable pub nh_key : Hmac → Bytes → List Bytes → Option Bytes
unfolding kdf
nh_key hmac key p = kdf hmac key fc_nh p

unfoldable pub kamf_key : Hmac → Bytes → Bytes → Bytes → Option Bytes
unfolding kdf
kamf_key hmac kseaf supi abba = kdf hmac kseaf fc_kamf (supi ∷ abba ∷ [])

unfoldable pub kamf_prime : Hmac → Bytes → Bytes → Bytes → Option Bytes
unfolding kdf
kamf_prime hmac kamf direction count = kdf hmac kamf fc_kamf_prime (direction ∷ count ∷ [])

unfoldable pub kausf_key : Hmac → Bytes → Bytes → Bytes → Option Bytes
unfolding kdf
kausf_key hmac ckik servingnet sqnxorak = kdf hmac ckik fc_kausf (servingnet ∷ sqnxorak ∷ [])

-- `buf[:len(buf)/2]` and `buf[len(buf)/2:]`.
abbrev pub halves : Option Bytes → Option (Bytes × Bytes)
halves none = none
halves (some buf) = some (take (length buf / 2) buf, drop (length buf / 2) buf)

unfoldable pub ck_prime_ik_prime : Hmac → Bytes → Bytes → Bytes → Option (Bytes × Bytes)
unfolding kdf
ck_prime_ik_prime hmac key servingnet sqnxorak =
    halves (kdf hmac key fc_ck_prime_ik_prime (servingnet ∷ sqnxorak ∷ []))

unfoldable pub resstar_xresstar : Hmac → Bytes → Bytes → Bytes → Bytes → Option (Bytes × Bytes)
unfolding kdf
resstar_xresstar hmac key servingnet rand res =
    halves (kdf hmac key fc_res_star_xres_star (servingnet ∷ rand ∷ res ∷ []))
