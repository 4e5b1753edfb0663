-- ===== src/Auth/Replay.antt =====
-- Which challenges are accepted, and what they do to the sequence number.
use central_unit.Base.{
  ◌≤◌, ◌<◌, ◌≡◌, ◌≢◌, ◌∙◌, sym, ap, refl, ◌⊎◌, true, false, [], ◌++◌, length, length-append,
  append_assoc, Run-cases, drop, take_of_length, drop_of_length, ltb, some, if◌then◌else◌, done,
  arith, Bool-cases, inl, inr,
}
use central_unit.Bytes.{Bytes, xor_bytes, equal}
use central_unit.Bytes.Laws.{xor_bytes_cancel, length-xor_bytes, equal_refl, eq_of_equal, equal_iff}
use central_unit.Sqn.{Sqn, set, get_val}
use central_unit.Milenage.{f1, f2f5}
use central_unit.Milenage.Sizes.{length-ak}
use central_unit.Kdf.{Hmac}
use central_unit.Auth.{
  AuthContext, Answer, auth_success, auth_mac_failure, auth_sync_failure, mac_a, auts, accept,
  supi_digits, verify, net_sqn, process_authentication_info,
}

-- The three ways through the checks of a challenge that is answered.
checked :
    (hmac : Hmac) (auth : AuthContext) (autn abba : Bytes) (r : Answer)
    → process_authentication_info hmac auth autn abba ≡ done r
    → (let net = net_sqn auth.milenage autn in
        let mac = mac_a (f1 auth.milenage net auth.amf) in
        let late = ltb (get_val (set (record { value = 0 }) net)) (get_val auth.sqn) in
        (ltb (length autn) 8 ≡ false)
        × ((equal mac (drop 8 autn) ≡ false)
              × (r ≡ record { auth = auth; code = auth_mac_failure; output = [] })
            ⊎ ((equal mac (drop 8 autn) ≡ true)
                × (late ≡ true)
                × (r ≡ record { auth = auth; code = auth_sync_failure; output = auts auth }))
            ⊎ ((equal mac (drop 8 autn) ≡ true)
                × (late ≡ false)
                × (accept hmac auth net abba ≡ done r))))
unfolding process_authentication_info verify
checked hmac auth autn abba r p = ground arith

accepted :
    (hmac : Hmac) (auth : AuthContext) (net abba : Bytes) (r : Answer)
    → accept hmac auth net abba ≡ done r
    → (r.code ≡ auth_success)
      × (r.auth ≡ record auth { sqn = set auth.sqn net; kamf = r.auth.kamf })
unfolding accept supi_digits
accepted hmac auth net abba r p = ground arith

-- The keys do not depend on the sequence number and on K_AMF of before.
accept-again :
    (hmac : Hmac) (auth : AuthContext) (n : Sqn) (k net abba : Bytes)
    → accept hmac (record auth { sqn = n; kamf = k }) net abba ≡ accept hmac auth net abba
unfolding accept set
accept-again hmac auth n k net abba = refl

set-set : (n m : Sqn) (b : Bytes) → set n b ≡ set m b
unfolding set
set-set n m b = refl

-- Every challenge that is answered falls under one of three cases. With a wrong MAC-A, and with a
-- sequence number below the UE's, the context is as it was; otherwise MAC-A is that of the sequence
-- number in the AUTN, which is not below the UE's and becomes the UE's. So it never falls.
pub challenge_cases :
    (hmac : Hmac) (auth : AuthContext) (autn abba : Bytes) (r : Answer)
    → process_authentication_info hmac auth autn abba ≡ done r
    → (let net = net_sqn auth.milenage autn in
        let mac = mac_a (f1 auth.milenage net auth.amf) in
        let n = set (record { value = 0 }) net in
        ((r.code ≡ auth_mac_failure) × (r.auth ≡ auth) × (mac ≢ drop 8 autn))
        ⊎ ((r.code ≡ auth_sync_failure)
            × (r.auth ≡ auth)
            × (mac ≡ drop 8 autn)
            × (n.value < auth.sqn.value))
        ⊎ ((r.code ≡ auth_success)
            × (r.auth.sqn ≡ n)
            × (mac ≡ drop 8 autn)
            × (auth.sqn.value ≤ n.value)))
unfolding get_val
challenge_cases hmac auth autn abba r p =
    let net = net_sqn auth.milenage autn in
    elim (checked hmac auth autn abba r p).1 [
      | inl (e, q) ↦ inl (
        ap (λ (k : Answer). k.code) q,
        ap (λ (k : Answer). k.auth) q,
        λ x. cc ((equal_iff (mac_a (f1 auth.milenage net auth.amf)) (drop 8 autn)).1 x),
      )
      | inr (inl (e, l, q)) ↦ inr (
          inl (
            ap (λ (k : Answer). k.code) q,
            ap (λ (k : Answer). k.auth) q,
            eq_of_equal (mac_a (f1 auth.milenage net auth.amf)) (drop 8 autn) e,
            ground arith,
          ))
      | inr (inr (e, l, q)) ↦
          let (c, a) = accepted hmac auth net abba r q in
          inr (
            inr (
              c,
              ap (λ (k : AuthContext). k.sqn) a ∙ set-set auth.sqn (record { value = 0 }) net,
              eq_of_equal (mac_a (f1 auth.milenage net auth.amf)) (drop 8 autn) e,
              ground arith,
            ))
    ]

passed :
    (hmac : Hmac) (auth : AuthContext) (autn abba : Bytes)
    → (let net = net_sqn auth.milenage autn in
        ltb (length autn) 8 ≡ false
        → equal (mac_a (f1 auth.milenage net auth.amf)) (drop 8 autn) ≡ true
        → ltb (get_val (set (record { value = 0 }) net)) (get_val auth.sqn) ≡ false
        → process_authentication_info hmac auth autn abba ≡ accept hmac auth net abba)
unfolding process_authentication_info verify
passed hmac auth autn abba s m l = rw (s, m, l) refl

late :
    (hmac : Hmac) (auth : AuthContext) (autn abba : Bytes)
    → (let net = net_sqn auth.milenage autn in
        ltb (length autn) 8 ≡ false
        → equal (mac_a (f1 auth.milenage net auth.amf)) (drop 8 autn) ≡ true
        → ltb (get_val (set (record { value = 0 }) net)) (get_val auth.sqn) ≡ true
        → process_authentication_info hmac auth autn abba
          ≡ done (record { auth = auth; code = auth_sync_failure; output = auts auth }))
unfolding process_authentication_info verify
late hmac auth autn abba s m l = rw (s, m, l) refl

accept-answers :
    (hmac : Hmac) (auth : AuthContext) (net abba : Bytes)
    → 5 ≤ length auth.supi
    → (r : Answer) × (accept hmac auth net abba ≡ done r)
unfolding accept supi_digits
accept-answers hmac auth net abba h = elim (Run-cases (accept hmac auth net abba)) [
  | inl p ↦ ground arith
  | inr s ↦ s
]

success_checks :
    (hmac : Hmac) (auth : AuthContext) (autn abba : Bytes) (r : Answer)
    → process_authentication_info hmac auth autn abba ≡ done r
    → r.code ≡ auth_success
    → (equal (mac_a (f1 auth.milenage (net_sqn auth.milenage autn) auth.amf)) (drop 8 autn) ≡ true)
      × (accept hmac auth (net_sqn auth.milenage autn) abba ≡ done r)
success_checks hmac auth autn abba r p c = elim (checked hmac auth autn abba r p).1 [
  | inl (e, q) ↦ cc
  | inr (inl (e, l, q)) ↦ cc
  | inr (inr (e, l, q)) ↦ (e, q)
]

-- An AUTN that was accepted is accepted again: the same challenge, sent to the context that it left,
-- has the same answer and leaves that context.
pub replay_accepted :
    (hmac : Hmac) (auth : AuthContext) (autn abba : Bytes) (r : Answer)
    → process_authentication_info hmac auth autn abba ≡ done r
    → r.code ≡ auth_success
    → process_authentication_info hmac r.auth autn abba ≡ done r
unfolding get_val net_sqn set
replay_accepted hmac auth autn abba r p c =
    let net = net_sqn auth.milenage autn in
    let (e, q) = success_checks hmac auth autn abba r p c in
    let left : AuthContext = record auth { sqn = set auth.sqn net; kamf = r.auth.kamf } in
    let same : r.auth ≡ left = (accepted hmac auth net abba r q).1 in
    let again = passed hmac left autn abba (checked hmac auth autn abba r p).0 e (ground arith) in
    ap (λ (a : AuthContext). process_authentication_info hmac a autn abba) same
    ∙ again
    ∙ accept-again hmac auth (set auth.sqn net) r.auth.kamf net abba
    ∙ q

-- A challenge that the network made for a sequence number of six bytes, with the UE's key and AMF, is
-- never refused for its MAC. It is a synchronisation failure exactly where the number is below the
-- UE's, which then stays as it is; otherwise it is accepted and the number becomes the UE's. The
-- condition is that OPc has 16 bytes, the AMF field two, and the SUPI at least five.
pub genuine_challenge :
    (hmac : Hmac) (auth : AuthContext) (sqn abba maca macs : Bytes)
    → length auth.milenage.opc ≡ 16
    → length sqn ≡ 6
    → length auth.amf ≡ 2
    → 5 ≤ length auth.supi
    → f1 auth.milenage sqn auth.amf ≡ some (maca, macs)
    → (let autn = xor_bytes sqn (f2f5 auth.milenage).1 ++ (auth.amf ++ maca) in
        let n = set (record { value = 0 }) sqn in
        (r : Answer) × (process_authentication_info hmac auth autn abba ≡ done r)
        × (r.code ≡ (if ltb n.value auth.sqn.value then auth_sync_failure else auth_success))
        × (r.auth.sqn ≡ (if ltb n.value auth.sqn.value then auth.sqn else n)))
unfolding net_sqn get_val
genuine_challenge hmac auth sqn abba maca macs ho hs ha hu e =
    let m = auth.milenage in
    let ak = (f2f5 m).1 in
    let hidden = xor_bytes sqn ak in
    let autn = hidden ++ (auth.amf ++ maca) in
    let aks = length-ak m ho in
    let six : length hidden ≡ 6 = length-xor_bytes sqn ak (hs ∙ sym aks) ∙ hs in
    let shown : net_sqn m autn ≡ sqn =
      (ap (λ (t : Bytes). xor_bytes t ak) (take_of_length 6 hidden (auth.amf ++ maca) six)
        ∙ xor_bytes_cancel sqn ak (hs ∙ sym aks)) in
    let mac : drop 8 autn ≡ maca =
      ap (λ t. drop 8 t) (sym (append_assoc hidden auth.amf maca))
      ∙ drop_of_length 8 (hidden ++ auth.amf) maca (omega (arith, length-append hidden auth.amf)) in
    let size : ltb (length autn) 8 ≡ false =
      ground (arith, length-append hidden (auth.amf ++ maca), length-append auth.amf maca) in
    let matches : equal (mac_a (f1 m (net_sqn m autn) auth.amf)) (drop 8 autn) ≡ true =
      rw (shown, e, mac) (equal_refl maca) in
    let n : Sqn = set (record { value = 0 }) sqn in
    let same : set (record { value = 0 }) (net_sqn m autn) ≡ n =
      ap (set (record { value = 0 })) shown in
    let (r, q) = accept-answers hmac auth (net_sqn m autn) abba hu in
    elim (Bool-cases (ltb n.value auth.sqn.value)) [
      | inl l ↦ (_, late hmac auth autn abba size matches (rw same l), rw l refl, rw l refl)
      | inr l ↦
          let (c, a) = accepted hmac auth (net_sqn m autn) abba r q in
          (
            r,
            passed hmac auth autn abba size matches (rw same l) ∙ q,
            rw l c,
            rw l (
                ap (λ (k : AuthContext). k.sqn) a
                ∙ set-set auth.sqn (record { value = 0 }) _
                ∙ same),
          )
    ]
