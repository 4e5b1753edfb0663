-- ===== src/Cu/Attach/Uplink.antt =====
-- The checks on uplink and downlink transfers.
use central_unit.Base.{
  ◌≤◌, ◌<◌, ◌^◌, ◌≡◌, ◌≢◌, Option, none, some, done, arith, ◌>>=◌, Option-cases, Run-cases, inl,
  inr,
}
use central_unit.Bytes.{Bytes}
use central_unit.Wire.{
  Env, UlRrc, DownlinkNas, uplink_nas_transport, initial_context_setup_response,
}
use central_unit.Ue.{Ue, ongoing, ready}
use central_unit.Amf.{GnbAmf}
use central_unit.Cu.{CuCp, ok, send_f1ap, send_ngap, location}
use central_unit.Cu.F1.{handle_ul_rrc, decode_dcch}
use central_unit.Cu.Rrc.{
  handle_ul_information_transfer, handle_rrc_reconfiguration_complete, send_nas_pdu, send_nas_in,
  send_encoded, store,
}
use central_unit.Cu.Ngap.{handle_downlink_nas}

-- An uplink transfer changes the context or writes anything only where it names the DU identifier
-- of the current UE, a bearer that is at least 1 as a signed number, and a container that decodes.
pub handle_ul_rrc_guard :
    (env : Env) (cu cu' : CuCp) (msg : UlRrc)
    → handle_ul_rrc env cu msg ≡ done cu'
    → cu' ≢ cu
    → (ue : Ue) × (cu.ue ≡ some ue)
      × (msg.gnb_du_ue_id ≡ ue.du_ue_id)
      × (1 ≤ msg.srb_id)
      × (msg.srb_id < 2 ^ 63)
      × (env.decode_ul_dcch msg.rrc_container ≢ none)
unfolding handle_ul_rrc decode_dcch
handle_ul_rrc_guard env cu cu' msg h changed = elim (Option-cases cu.ue) [
  | inl n ↦ absurd (ground arith)
  | inr (ue, e) ↦ (ue, e, ground arith, ground arith, ground arith, λ n. changed (ground arith))
]

-- The DU and the bytes of a downlink NAS message do not depend on the UE: from contexts that
-- differ in the UE alone, whatever its identifiers, the same writes are left, or both calls panic.
pub downlink_ignores_ue :
    (env : Env) (cu : CuCp) (u v : Ue) (msg : DownlinkNas)
    → (handle_downlink_nas env (record cu { ue = some u }) msg >>= λ c. done c.writes)
      ≡ (handle_downlink_nas env (record cu { ue = some v }) msg >>= λ c. done c.writes)
unfolding handle_downlink_nas send_f1ap
downlink_ignores_ue env cu u v msg = ground arith

sent-ue :
    (cu cu' : CuCp) (amf : GnbAmf) (o : Option Bytes)
    → send_encoded cu amf o ≡ done cu'
    → cu'.ue ≡ cu.ue
unfolding send_encoded send_ngap
sent-ue cu cu' amf none h = ground arith
sent-ue cu cu' amf (some b) h = ground arith

reconfigured-ue :
    (env : Env) (cu cu1 : CuCp) (ue : Ue)
    → handle_rrc_reconfiguration_complete env cu ue ≡ done (cu1, ok)
    → cu1.ue ≡ some (record ue { state = ready })
unfolding handle_rrc_reconfiguration_complete send_ngap
reconfigured-ue env cu cu1 ue h =
    elim (Option-cases
      (env.ng_encode (initial_context_setup_response ue.amf_ue_ngap_id ue.ran_ue_ngap_id))) [
        | inl n ↦ absurd (ground arith)
        | inr (pdu, e) ↦ elim (Option-cases cu.amf) [
          | inl n ↦ absurd (ground arith)
          | inr (amf, k) ↦ ground arith
        ]
      ]

uplinked-ue :
    (env : Env) (cu cu2 : CuCp) (ue : Ue) (nas : Bytes)
    → handle_ul_information_transfer env cu ue (some nas) ≡ done (cu2, ok)
    → cu2.ue ≡ some (record ue { state = ongoing })
unfolding handle_ul_information_transfer send_nas_pdu send_nas_in
uplinked-ue env cu cu2 ue nas h = elim (Option-cases cu.amf) [
  | inl n ↦ absurd (ground arith)
  | inr (amf, k) ↦
      let ongoing_ue = record ue { state = ongoing } in
      let message =
        env.ng_encode
          (uplink_nas_transport ue.amf_ue_ngap_id ue.ran_ue_ngap_id nas (location env cu)) in
      elim (Run-cases (send_encoded (store cu ongoing_ue) amf message)) [
        | inl p ↦ absurd (ground (arith, p, k))
        | inr (cu3, e) ↦ sent-ue (store cu ongoing_ue) cu2 amf message (ground (arith, e, k))
      ]
]

-- A UE whose reconfiguration completes with no error is ready; an uplink NAS message that then
-- passes with no error makes it ongoing again, with nothing else of it changed.
pub uplink_ends_ready :
    (env : Env) (cu cu1 cu2 : CuCp) (ue ue1 : Ue) (nas : Bytes)
    → handle_rrc_reconfiguration_complete env cu ue ≡ done (cu1, ok)
    → cu1.ue ≡ some ue1
    → handle_ul_information_transfer env cu1 ue1 (some nas) ≡ done (cu2, ok)
    → (ue1.state ≡ ready) × (cu2.ue ≡ some (record ue1 { state = ongoing }))
uplink_ends_ready env cu cu1 cu2 ue ue1 nas h k l =
    let done_ue = reconfigured-ue env cu cu1 ue h in
    (ground arith, uplinked-ue env cu1 cu2 ue1 nas l)
