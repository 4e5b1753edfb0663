-- ===== src/Cu/Attach/Single.antt =====
-- The context holds one UE: what an RRC Setup Request does to the UE before it.
use central_unit.Base.{
  ℕ, if◌then◌else◌, true, false, ◌==◌, ◌≡◌, ◌≢◌, ◌∙◌, ap, refl, Bool, Option, none, some, Run,
  Option-cases, >>=-eq-done, done, panic, inl, inr, arith,
}
use central_unit.Bytes.{Bytes}
use central_unit.Asn1.{BitString}
use central_unit.Wire.{
  Env, rrc_setup, dl_rrc_transfer, InitialUeIdentity, RrcSetupRequest, InitialUlRrc, UlRrc,
}
use central_unit.Ue.{Ue}
use central_unit.Du.{GnbDu}
use central_unit.Cu.{CuCp, Status, failed, Outcome, new_ue, create_ue, send_f1ap}
use central_unit.Cu.Rrc.{
  store, identity_bits, with_part1, is_supported, send_rrc_setup, accept_setup,
  handle_rrc_setup_request,
}
use central_unit.Cu.F1.{logged, handle_initial_ul_rrc, handle_ul_rrc}

-- The DU's number of the current UE.
pub ue_number : CuCp → Option ℕ
ue_number cu = elim cu.ue [ none ↦ none | some ue ↦ some ue.du_ue_id ]

sent-number :
    (env : Env) (cu : CuCp) (du : GnbDu) (pdu : Bytes)
    → ue_number (send_f1ap env cu du pdu).0 ≡ ue_number cu
unfolding send_f1ap ue_number
sent-number env cu du pdu = ground arith

setup-number :
    (env : Env) (cu : CuCp) (du : GnbDu) (ue : Ue) (container : Bytes)
    → ue_number (send_rrc_setup env cu du ue container).0 ≡ ue_number cu
unfolding send_rrc_setup
setup-number env cu du ue container = elim (Option-cases (env.rrc_encode (rrc_setup 1 container))) [
  | inl n ↦ rw (send_rrc_setup, n) refl
  | inr (b, e) ↦
      elim (Option-cases (
        env.f1_encode (
          dl_rrc_transfer (record {
            gnb_cu_ue_id = ue.rrc_ue_id;
            gnb_du_ue_id = ue.du_ue_id;
            srb_id = 0;
            rrc_container = b;
          })))) [
            | inl n ↦ rw (send_rrc_setup, e, n) refl
            | inr (pdu, k) ↦ rw (send_rrc_setup, e, k) (sent-number env cu du pdu)
          ]
]

accepted-number :
    (env : Env) (cu : CuCp) (du : GnbDu) (ue : Ue) (req : RrcSetupRequest) (msg : InitialUlRrc)
    → ue_number cu ≡ some ue.du_ue_id
    → ue_number (accept_setup env cu du ue req msg).0 ≡ some ue.du_ue_id
unfolding accept_setup ue_number
accepted-number env cu du ue req msg h = elim (Option-cases msg.du_to_cu_container) [
  | inl n ↦ rw (accept_setup, n) h
  | inr (container, e) ↦ elim (Option-cases (env.decode_cell_group container)) [
    | inl n ↦ rw (accept_setup, e, n) h
    | inr (group, k) ↦
        let ue' = record ue {
          master_cell_group = some group;
          establishment_cause = some req.establishment_cause;
          nr_cell_id = some msg.nr_cell_identity;
        } in
        rw (accept_setup, e, k)
          (setup-number env (store cu ue') du ue' container ∙ stored-number cu ue')
  ]
]
  where
    stored-number : (c : CuCp) (u : Ue) → ue_number (store c u) ≡ some u.du_ue_id
    stored-number c u = refl

part1-number : (i : InitialUeIdentity) (ue : Ue) → (with_part1 i ue).du_ue_id ≡ ue.du_ue_id
unfolding with_part1
part1-number i ue = ground arith

created-number :
    (cu cu1 : CuCp) (du_id crnti number : ℕ) (identity : BitString) (fresh : Ue)
    → create_ue cu du_id crnti identity number ≡ done (cu1, fresh)
    → fresh.du_ue_id ≡ number
unfolding create_ue new_ue
created-number cu cu1 du_id crnti number identity fresh h = elim (Option-cases cu.amf) [
  | inl n ↦ absurd (ground arith)
  | inr (amf, e) ↦ ground arith
]

either-number :
    (b : Bool) (p q : CuCp × Status) (x : Option ℕ)
    → ue_number p.0 ≡ x
    → ue_number q.0 ≡ x
    → ue_number (if b then p else q).0 ≡ x
either-number true p q x h k = h
either-number false p q x h k = k

result-number :
    (p : CuCp × Status) (cu' : CuCp) (status : Status) (x : Option ℕ)
    → ue_number p.0 ≡ x
    → ◌≡◌ {A = Run (CuCp × Status)} (done p) (done (cu', status))
    → ue_number cu' ≡ x
result-number (cu, s) cu' status x h e = let same : cu ≡ cu' = ground arith in rw (← same) h

handled-number :
    (env : Env) (cu cu' : CuCp) (du : GnbDu) (req : RrcSetupRequest) (msg : InitialUlRrc)
    (status : Status)
    → handle_rrc_setup_request env cu (some du) req msg ≡ done (cu', status)
    → ue_number cu' ≡ some msg.gnb_du_ue_id
unfolding handle_rrc_setup_request ue_number
handled-number env cu cu' du req msg status h =
    let ((cu1, fresh), made, stored) =
      >>=-eq-done
        (create_ue cu du.du_id msg.c_rnti (identity_bits req.ue_identity) msg.gnb_du_ue_id) _ h in
    let ue = with_part1 req.ue_identity fresh in
    let number : ue.du_ue_id ≡ msg.gnb_du_ue_id =
      part1-number req.ue_identity fresh
      ∙ created-number cu cu1 du.du_id msg.c_rnti msg.gnb_du_ue_id (identity_bits req.ue_identity)
          fresh made in
    let p = accept_setup env (store cu1 ue) du ue req msg in
    let accepted = accepted-number env (store cu1 ue) du ue req msg refl in
    result-number (if is_supported req.ue_identity then p else (store cu1 ue, failed)) cu' status
      (some msg.gnb_du_ue_id)
      (either-number (is_supported req.ue_identity) p (store cu1 ue, failed) (some msg.gnb_du_ue_id)
        (accepted ∙ ap some number) (ap some number))
      stored

reached-number :
    (env : Env) (cu cu' : CuCp) (du : Option GnbDu) (req : RrcSetupRequest) (msg : InitialUlRrc)
    (status : Status)
    → handle_rrc_setup_request env cu du req msg ≡ done (cu', status)
    → ue_number cu' ≡ some msg.gnb_du_ue_id
unfolding handle_rrc_setup_request
reached-number env cu cu' none req msg status h = cc
reached-number env cu cu' (some du) req msg status h = handled-number env cu cu' du req msg status h

ignored :
    (env : Env) (cu : CuCp) (later : UlRrc) (number : ℕ)
    → ue_number cu ≡ some number
    → later.gnb_du_ue_id ≢ number
    → handle_ul_rrc env cu later ≡ done cu
unfolding handle_ul_rrc ue_number
ignored env cu later number h other = elim (Option-cases cu.ue) [
  | inl n ↦ absurd (ground arith)
  | inr (ue, e) ↦
      let differs : (later.gnb_du_ue_id == ue.du_ue_id) ≡ false = ground arith in ground arith
]

logged-number :
    (m : Outcome) (cu' : CuCp) (x : Option ℕ)
    → ((c : CuCp) (status : Status) → m ≡ done (c, status) → ue_number c ≡ x)
    → logged m ≡ done cu'
    → ue_number cu' ≡ x
logged-number (done (c, status)) cu' x each h =
    let same : c ≡ cu' = ground arith in rw (← same) (each c status refl)
logged-number panic cu' x each h = cc

-- A context with one UE: where an RRC Setup Request is decoded and the handler does not panic, also
-- where the request is refused in the end, the UE of the request takes the place of the UE before
-- it. An uplink transfer with another DU identifier, that of the former UE for one, then changes
-- nothing and has nothing written.
pub setup_displaces :
    (env : Env) (cu cu' : CuCp) (request : InitialUlRrc) (req : RrcSetupRequest) (later : UlRrc)
    → env.decode_ul_ccch request.rrc_container ≡ some (record { c1 = some (some req) })
    → handle_initial_ul_rrc env cu request ≡ done cu'
    → later.gnb_du_ue_id ≢ request.gnb_du_ue_id
    → (ue_number cu' ≡ some request.gnb_du_ue_id) × (handle_ul_rrc env cu' later ≡ done cu')
unfolding handle_initial_ul_rrc
setup_displaces env cu cu' request req later d h other =
    let opened : logged (handle_rrc_setup_request env cu cu.du req request) ≡ done cu' =
      ground arith in
    let number =
      logged-number (handle_rrc_setup_request env cu cu.du req request) cu'
        (some request.gnb_du_ue_id)
        (λ c status e. reached-number env cu c cu.du req request status e) opened in
    (number, ignored env cu' later request.gnb_du_ue_id number other)
