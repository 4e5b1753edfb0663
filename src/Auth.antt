-- ===== src/Auth.antt =====
-- The authentication of internal/context/uecontext/auth.go. The fields `kamf`, `rand` and the rest
-- of `AuthContext` are those of the source; a slice or an index out of range panics.
pub mod Resync
pub mod Replay
use central_unit.Base.{
  ℕ, Bool, true, false, not, List, [], ◌∷◌, ◌++◌, length, take, drop, ltb, Option, none, some,
  if◌then◌else◌, Run, done, panic, ◌>>=◌,
}
use central_unit.Bytes.{Bytes, xor_bytes, equal}
use central_unit.Sqn.{Sqn, bytes, set, get_val}
use central_unit.Milenage.{Milenage, f1, f2f5, f3, f4, f5star}
use central_unit.Kdf.{Hmac, seaf_key, kamf_key, kausf_key, resstar_xresstar}

pub data AuthCode : Type 0 where
  auth_success auth_mac_failure auth_sync_failure : AuthCode

-- `ngKsi` is only held.
pub record AuthContext : Type 0 where
  pub supi : Bytes
  pub snn : Bytes
  pub kamf : Bytes
  pub rand : Bytes
  pub sqn : Sqn
  pub amf : Bytes
  pub milenage : Milenage

-- The receiver, `errCode` and `output`.
pub record Answer : Type 0 where
  pub auth : AuthContext
  pub code : AuthCode
  pub output : Bytes

-- A result whose error is dropped.
abbrev or_nil : Option Bytes → Bytes
or_nil none = []
or_nil (some b) = b

abbrev pub mac_a : Option (Bytes × Bytes) → Bytes
mac_a none = []
mac_a (some (maca, _)) = maca

abbrev pub mac_s : Option (Bytes × Bytes) → Bytes
mac_s none = []
mac_s (some (_, macs)) = macs

abbrev second_half : Option (Bytes × Bytes) → Bytes
second_half none = []
second_half (some (_, xresstar)) = xresstar

-- `key := append(ck, ik...)`
unfoldable pub cipher_key : Milenage → Bytes
cipher_key m = f3 m ++ f4 m

-- The sequence number of the network, from `autn[0:6]`.
unfoldable pub net_sqn : Milenage → Bytes → Bytes
net_sqn m autn = xor_bytes (take 6 autn) (f2f5 m).1

-- 4.1: the AUTS of a synchronisation failure.
unfoldable pub auts : AuthContext → Bytes
auts auth =
    let ue_sqn = bytes auth.sqn in
    xor_bytes ue_sqn (f5star auth.milenage) ++ mac_s (f1 auth.milenage ue_sqn (0 ∷ 0 ∷ []))

-- `auth.supi[5:]`
unfoldable pub supi_digits : Bytes → Run Bytes
supi_digits supi = if ltb (length supi) 5 then panic else done (drop 5 supi)

-- 5 and 6: the keys and RES*, after the update of the sequence number.
unfoldable pub accept : Hmac → AuthContext → Bytes → Bytes → Run Answer
unfolding cipher_key supi_digits
accept hmac auth net abba =
    let key = cipher_key auth.milenage in
    let kausf = or_nil (kausf_key hmac key auth.snn (xor_bytes net (f2f5 auth.milenage).1)) in
    let kseaf = or_nil (seaf_key hmac kausf (auth.snn ∷ [])) in
    supi_digits auth.supi >>= λ digits. done (record {
      auth = record auth {
        sqn = set auth.sqn net;
        kamf = or_nil (kamf_key hmac kseaf digits abba);
      };
      code = auth_success;
      output = second_half (resstar_xresstar hmac key auth.snn auth.rand (f2f5 auth.milenage).0);
    })

-- 3 to 6, with the network's sequence number and the received MAC-A.
unfoldable pub verify : Hmac → AuthContext → Bytes → Bytes → Bytes → Run Answer
unfolding auts accept
verify hmac auth net mac abba =
    if not (equal (mac_a (f1 auth.milenage net auth.amf)) mac)
    then done (record { auth = auth; code = auth_mac_failure; output = [] })
    else if ltb (get_val (set (record { value = 0 }) net)) (get_val auth.sqn)
    then done (record { auth = auth; code = auth_sync_failure; output = auts auth })
    else accept hmac auth net abba

unfoldable pub process_authentication_info : Hmac → AuthContext → Bytes → Bytes → Run Answer
unfolding verify net_sqn
process_authentication_info hmac auth autn abba =
    if ltb (length autn) 8
    then panic
    else verify hmac auth (net_sqn auth.milenage autn) (drop 8 autn) abba
