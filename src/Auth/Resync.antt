-- ===== src/Auth/Resync.antt =====
-- A synchronisation failure at the UE, and what the network reads from its AUTS.
use central_unit.Base.{
  ◌≡◌, ◌∙◌, sym, ap, refl, true, false, not, ◌||◌, [], ◌∷◌, length, length-append, take, drop,
  take_of_length, drop_of_length, ◌==◌, done, arith,
}
use central_unit.Bytes.{Bytes, xor_bytes}
use central_unit.Bytes.Laws.{xor_bytes_cancel, length-xor_bytes, equal_refl}
use central_unit.Sqn.{Sqn, bytes, set}
use central_unit.Sqn.Laws.{IsSqn, bytes_shape, set-bytes}
use central_unit.Milenage.{Milenage, Verdict, with_rand, f1, f5star, validate_auts}
use central_unit.Milenage.Standard.{temp}
use central_unit.Milenage.Rounds.{xor_bytes_comm}
use central_unit.Milenage.Refinement.{IsReady}
use central_unit.Milenage.Sizes.{length-f5star, f1-sizes, same_functions}
use central_unit.Kdf.{Hmac}
use central_unit.Auth.{
  AuthContext, Answer, auth_sync_failure, mac_s, auts, accept, supi_digits, verify,
  process_authentication_info,
}

-- The network's machine, once it has taken the UE's random vector, computes what the UE computes.
renewed_functions :
    (m net : Milenage)
    → IsReady m
    → net.block ≡ m.block
    → net.opc ≡ m.opc
    → ((sqn amf : Bytes) → f1 (with_rand net m.rand) sqn amf ≡ f1 m sqn amf)
      × (f5star (with_rand net m.rand) ≡ f5star m)
unfolding with_rand temp
renewed_functions m net h hb ho =
    same_functions (with_rand net m.rand) m hb ho (rw (hb, ho) (sym h.temp_of_rand))

-- The two halves of an AUTS.
auts-parts :
    (auth : AuthContext)
    → length auth.milenage.opc ≡ 16
    → (length (auts auth) ≡ 14)
      × (take 6 (auts auth) ≡ xor_bytes (bytes auth.sqn) (f5star auth.milenage))
      × (drop 6 (auts auth) ≡ mac_s (f1 auth.milenage (bytes auth.sqn) (0 ∷ 0 ∷ [])))
unfolding auts
auts-parts auth ho =
    let hidden = xor_bytes (bytes auth.sqn) (f5star auth.milenage) in
    let shape = (bytes_shape auth.sqn).0 in
    let star = length-f5star auth.milenage ho in
    let six : length hidden ≡ 6 =
      length-xor_bytes (bytes auth.sqn) (f5star auth.milenage) (omega arith) ∙ shape in
    let (maca, macs, e, _, eight) =
      f1-sizes auth.milenage (bytes auth.sqn) (0 ∷ 0 ∷ []) ho shape refl in
    let mac = mac_s (f1 auth.milenage (bytes auth.sqn) (0 ∷ 0 ∷ [])) in
    let mac_size : length mac ≡ 8 = rw e eight in
    (
      omega (arith, length-append hidden mac),
      take_of_length 6 hidden mac six,
      drop_of_length 6 hidden mac six,
    )

-- What the network makes of the UE's AUTS.
validate-auts :
    (auth : AuthContext) (net : Milenage)
    → IsReady auth.milenage
    → net.block ≡ auth.milenage.block
    → net.opc ≡ auth.milenage.opc
    → validate_auts net (auts auth) auth.milenage.rand
      ≡ record { receiver = with_rand net auth.milenage.rand; sqn = bytes auth.sqn; valid = true }
unfolding validate_auts
validate-auts auth net h hb ho =
    let m = auth.milenage in
    let net' = with_rand net m.rand in
    let (same_f1, same_star) = renewed_functions m net h hb ho in
    let (size, first, second) = auts-parts auth h.opc_size in
    let ue = bytes auth.sqn in
    let shape = (bytes_shape auth.sqn).0 in
    let (maca, macs, e, _, _) = f1-sizes m ue (0 ∷ 0 ∷ []) h.opc_size shape refl in
    let tests : not (length (auts auth) == 14) || not (length m.rand == 16) ≡ false =
      rw (size, h.rand_size) refl in
    let shown : xor_bytes (f5star net') (take 6 (auts auth)) ≡ ue =
      (ap (λ (t : Bytes). xor_bytes (f5star net') t) first
        ∙ ap (λ (t : Bytes). xor_bytes t (xor_bytes ue (f5star m))) same_star
        ∙ xor_bytes_comm (f5star m) (xor_bytes ue (f5star m))
        ∙ xor_bytes_cancel ue (f5star m) (shape ∙ sym (length-f5star m h.opc_size))) in
    rw (tests, shown, same_f1 ue (0 ∷ 0 ∷ []), second, e, equal_refl macs)

-- A synchronisation failure leaves the context as it was and answers with the AUTS.
sync_failure-auts :
    (hmac : Hmac) (auth : AuthContext) (autn abba : Bytes) (r : Answer)
    → process_authentication_info hmac auth autn abba ≡ done r
    → r.code ≡ auth_sync_failure
    → (r.auth ≡ auth) × (r.output ≡ auts auth)
unfolding process_authentication_info verify accept supi_digits
sync_failure-auts hmac auth autn abba r p c = ground arith

-- Resynchronisation. Let the Milenage value of the UE be ready and its sequence number be one of 48
-- bits. If the UE answers a challenge with a synchronisation failure, then its context
-- is unchanged, and a network with the same key and operator constant accepts the output as AUTS
-- for the same random vector and reads from it the UE's sequence number, exactly.
pub resynchronised :
    (hmac : Hmac) (auth : AuthContext) (autn abba : Bytes) (r : Answer) (net : Milenage) (n : Sqn)
    → process_authentication_info hmac auth autn abba ≡ done r
    → r.code ≡ auth_sync_failure
    → IsReady auth.milenage
    → IsSqn auth.sqn
    → net.block ≡ auth.milenage.block
    → net.opc ≡ auth.milenage.opc
    → (let v = validate_auts net r.output auth.milenage.rand in
        (r.auth ≡ auth) × (v.valid ≡ true) × (set n v.sqn ≡ auth.sqn))
resynchronised hmac auth autn abba r net n p c h hs hb ho =
    let (same, out) = sync_failure-auts hmac auth autn abba r p c in
    let v =
      ap (λ (t : Bytes). validate_auts net t auth.milenage.rand) out
      ∙ validate-auts auth net h hb ho in
    (
      same,
      ap (λ (w : Verdict). w.valid) v,
      ap (λ (w : Verdict). set n w.sqn) v ∙ set-bytes auth.sqn n hs,
    )
