-- ===== src/Examples/Crypto.antt =====
-- The authentication with a block that is the identity and a MAC that is its message.
use central_unit.Base.{
  ◌≤◌, ◌<◌, ◌≡◌, ◌≢◌, ◌⊎◌, refl, true, List, [], ◌∷◌, ◌++◌, take, drop, replicate, none, some, Run,
  done, panic, arith,
}
use central_unit.Bytes.{Bytes, equal, xor_bytes}
use central_unit.Bytes.Hex.{decode_string, from_hex_char}
use central_unit.Sqn.{get_val, set}
use central_unit.Milenage.{
  Crypto, Milenage, operation, new_milenage_ex, refresh, set_rand, f1, f2f5, f3, f4, f5star,
  validate_auts,
}
use central_unit.Milenage.Standard.{temp, out1, out}
use central_unit.Milenage.Refinement.{IsReady, constructed-IsReady, functions_lem}
use central_unit.Kdf.{Hmac, kdf_input, fc_kausf}
use central_unit.Kdf.Injective.{kdf_input_injective}
use central_unit.Auth.{
  AuthContext, Answer, auth_success, auth_mac_failure, auth_sync_failure, mac_a, auts, net_sqn,
  process_authentication_info,
}
use central_unit.Auth.Replay.{challenge_cases, replay_accepted, genuine_challenge}
use central_unit.Auth.Resync.{resynchronised}

abbrev lib : Crypto
lib = record { new_cipher = λ k. some (λ x. x); system_reader = replicate 16 9 ∷ [] }

abbrev m : Milenage
m = record {
  block = λ x. x;
  opc = replicate 16 3;
  randxor = replicate 16 10;
  rand = replicate 16 9;
  reader = [];
}

ready : IsReady m
unfolding temp xor_bytes
ready = record { opc_size = refl; rand_size = refl; temp_of_rand = refl }

abbrev renewed : Milenage
renewed = record m { rand = replicate 16 0; randxor = replicate 16 3 }

abbrev low : Bytes
low = 0 ∷ 0 ∷ 0 ∷ 0 ∷ 1 ∷ 0 ∷ []

abbrev amf : Bytes
amf = 0x80 ∷ 0 ∷ []

abbrev auth : AuthContext
auth = record {
  supi = b'i' ∷ b'm' ∷ b's' ∷ b'i' ∷ b'-' ∷ b'9' ∷ [];
  snn = b'5' ∷ b'G' ∷ [];
  kamf = [];
  rand = replicate 16 9;
  sqn = record { value = 255 };
  amf = amf;
  milenage = m;
}

-- A UE whose sequence number is ahead of the network's.
abbrev ahead : AuthContext
ahead = record auth { sqn = record { value = 70000 } }

abbrev hmac : Hmac
hmac = λ k s. s

-- MAC-A of `low`, and the challenge for it.
abbrev maca : Bytes
maca = 10 ∷ 10 ∷ 10 ∷ 10 ∷ 11 ∷ 10 ∷ 138 ∷ 10 ∷ []

unfoldable autn : Bytes
unfolding f2f5 xor_bytes
autn = xor_bytes low (f2f5 m).1 ++ (amf ++ maca)

abbrev or_else : Run Answer → Answer → Answer
or_else (done r) d = r
or_else panic d = d

abbrev refused : Answer
refused = record { auth = auth; code = auth_mac_failure; output = [] }

unfoldable answer : Answer
unfolding process_authentication_info autn
answer = or_else (process_authentication_info hmac auth autn []) refused

answered : process_authentication_info hmac auth autn [] ≡ done answer
unfolding answer process_authentication_info operation equal get_val set f1
answered = refl

accepted : answer.code ≡ auth_success
unfolding answer operation equal get_val set f1
accepted = refl

late : Answer
unfolding auts
late = record { auth = ahead; code = auth_sync_failure; output = auts ahead }

answered_late : process_authentication_info hmac ahead autn [] ≡ done late
unfolding late process_authentication_info autn operation equal get_val set f1
answered_late = refl

constructed-IsReady_example :
    IsReady m
    × IsReady (refresh m)
    × IsReady renewed
    × (renewed.rand ≡ replicate 16 0)
    × (renewed.opc ≡ m.opc)
unfolding new_milenage_ex set_rand xor_bytes
constructed-IsReady_example =
    constructed-IsReady lib (replicate 16 1) (replicate 16 3) (replicate 16 0) none true m renewed
      refl refl

functions_lem_example :
    (let tmp = temp m.block m.opc m.rand in
      let o1 = out1 m.block m.opc tmp (low ++ amf ++ low ++ amf) in
      let o2 = out m.block m.opc tmp 0 1 in
      (f1 m low amf ≡ some (take 8 o1, drop 8 o1))
      × (f2f5 m ≡ (drop 8 o2, take 6 o2))
      × (f3 m ≡ out m.block m.opc tmp 4 2)
      × (f4 m ≡ out m.block m.opc tmp 8 4)
      × (f5star m ≡ take 6 (out m.block m.opc tmp 12 8)))
functions_lem_example = functions_lem m low amf ready refl refl

abbrev params : List Bytes
params = (1 ∷ []) ∷ (2 ∷ 3 ∷ []) ∷ []

kdf_input_injective_example :
    ((decode_string fc_kausf).0 ≡ (decode_string (b'6' ∷ b'a' ∷ [])).0) × (params ≡ params)
unfolding kdf_input decode_string from_hex_char
kdf_input_injective_example =
    kdf_input_injective fc_kausf (b'6' ∷ b'a' ∷ []) (0x6a ∷ 1 ∷ 0 ∷ 1 ∷ 2 ∷ 3 ∷ 0 ∷ 2 ∷ []) params
      params refl (omega arith) (omega arith) refl refl

challenge_cases_example :
    (let mac = mac_a (f1 m (net_sqn m autn) amf) in
      let n = set (record { value = 0 }) (net_sqn m autn) in
      ((answer.code ≡ auth_mac_failure) × (answer.auth ≡ auth) × (mac ≢ drop 8 autn))
      ⊎ ((answer.code ≡ auth_sync_failure)
          × (answer.auth ≡ auth)
          × (mac ≡ drop 8 autn)
          × (n.value < 255))
      ⊎ ((answer.code ≡ auth_success)
          × (answer.auth.sqn ≡ n)
          × (mac ≡ drop 8 autn)
          × (255 ≤ n.value)))
challenge_cases_example = challenge_cases hmac auth autn [] answer answered

replay_accepted_example : process_authentication_info hmac answer.auth autn [] ≡ done answer
replay_accepted_example = replay_accepted hmac auth autn [] answer answered accepted

genuine_challenge_example :
    (r : Answer) × (process_authentication_info hmac auth autn [] ≡ done r)
    × (r.code ≡ auth_success)
    × (r.auth.sqn ≡ set (record { value = 0 }) low)
unfolding f1 set autn
genuine_challenge_example =
    genuine_challenge hmac auth low [] maca maca refl refl refl (omega arith) refl

resynchronised_example :
    (let v = validate_auts renewed late.output ahead.milenage.rand in
      (late.auth ≡ ahead) × (v.valid ≡ true) × (set (record { value = 0 }) v.sqn ≡ ahead.sqn))
unfolding late
resynchronised_example =
    resynchronised hmac ahead autn [] late renewed (record { value = 0 }) answered_late refl ready
      (omega arith) refl refl
