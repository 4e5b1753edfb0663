-- ===== src/Cu/Ngap.antt =====
-- NGAP: `SendNgSetupRequest` of internal/context/protocol_ngap.go, and `dispatch` and the handlers
-- of internal/context/handle_amf.go. The `amf` that the read loop hands to `dispatch` is `cu.AMF`.
use central_unit.Base.{
  ℕ, ◌+◌, [], map, length, Option, none, some, if◌then◌else◌, ◌==◌, Run, done, panic, must, ◌>>=◌,
}
use central_unit.Bytes.{Bytes}
use central_unit.Bytes.Hex.{sprint_hex}
use central_unit.Wire.{
  Env, DownlinkNas, ContextSetup, SliceItem, NgMessage, downlink_nas, context_setup,
  ng_setup_response, dl_information_transfer, dl_rrc_transfer, ng_setup_request,
}
use central_unit.Ue.{not_informed, create_ue_context}
use central_unit.Amf.{GnbAmf, Slice, NgSetupResponse}
use central_unit.Amf
use central_unit.Cu.{
  CuCp, send_ngap, send_f1ap, get_octets, get_gnb_id_in_bytes, get_tac_in_bytes, get_slice_in_bytes,
}
use central_unit.Cu.Rrc.{store}

abbrev or_empty : Option Bytes → Bytes
or_empty none = []
or_empty (some b) = b

-- An encoding error is logged, and the empty result is sent all the same.
unfoldable pub send_ng_setup_request : Env → CuCp → GnbAmf → Run CuCp
send_ng_setup_request env cu amf = do
  plmn ← get_octets cu
  let msg =
      ng_setup_request plmn (get_gnb_id_in_bytes cu) (get_tac_in_bytes cu) (get_slice_in_bytes cu).0
        (get_slice_in_bytes cu).1
  send_ngap cu amf (or_empty (env.ng_encode msg))

-- NG Setup Response, with the signal that lets the F1 server start.
unfoldable pub handle_ng_setup_response : CuCp → NgSetupResponse → Run CuCp
handle_ng_setup_response cu msg = do
  amf ← must cu.amf
  amf' ← Amf.ng_setup_response amf msg
  done (record cu { amf = some amf'; ready_signals = cu.ready_signals + 1 })

-- Downlink NAS Transport. The transfer names the AMF's and the DU's identifiers, and SRB 0.
unfoldable pub handle_downlink_nas : Env → CuCp → DownlinkNas → Run CuCp
handle_downlink_nas env cu msg = must cu.ue >>= λ ue.
    let cu1 = store cu (record ue { amf_ue_ngap_id = msg.amf_ue_ngap_id }) in
    elim (env.rrc_encode (dl_information_transfer msg.nas_pdu)) [
      | none ↦ done cu1
      | some buf ↦ must cu.amf >>= λ amf. must cu.du >>= λ du.
          elim (env.f1_encode (
            dl_rrc_transfer (record {
              gnb_cu_ue_id = amf.amf_id;
              gnb_du_ue_id = du.du_id;
              srb_id = 0;
              rrc_container = buf;
            }))) [ none ↦ done cu1 | some pdu ↦ done (send_f1ap env cu1 du pdu).0 ]
    ]

-- Initial Context Setup Request: the context is stored, and the NAS message kept for later.

abbrev pub or_not_informed : Option Bytes → Bytes
or_not_informed none = not_informed
or_not_informed (some b) = sprint_hex b

unfoldable pub allowed_slice : SliceItem → Slice
allowed_slice i = record { sst = or_not_informed i.sst; sd = or_not_informed i.sd }

unfoldable pub handle_context_setup : CuCp → ContextSetup → Run CuCp
unfolding allowed_slice
handle_context_setup cu msg = do
  ue ← must cu.ue
  ue' ←
      create_ue_context ue (or_not_informed msg.serving_plmn) (or_not_informed msg.masked_imeisv)
        (map allowed_slice msg.allowed_nssai) msg.security_capabilities
  done (store cu (record ue' { registration_accept = msg.nas_pdu }))

-- The assertions on the message's type are unchecked.

unfoldable pub as_downlink_nas : Env → CuCp → NgMessage → Run CuCp
as_downlink_nas env cu (downlink_nas m) = handle_downlink_nas env cu m
as_downlink_nas env cu _ = panic

unfoldable pub as_context_setup : CuCp → NgMessage → Run CuCp
as_context_setup cu (context_setup m) = handle_context_setup cu m
as_context_setup cu _ = panic

unfoldable pub as_ng_setup_response : CuCp → NgMessage → Run CuCp
as_ng_setup_response cu (ng_setup_response m) = handle_ng_setup_response cu m
as_ng_setup_response cu _ = panic

unfoldable pub dispatch_ng_initiating : Env → CuCp → ℕ → NgMessage → Run CuCp
unfolding as_downlink_nas as_context_setup
dispatch_ng_initiating env cu code msg =
    if code == env.ng_downlink_nas
    then as_downlink_nas env cu msg
    else if code == env.ng_initial_context_setup
    then as_context_setup cu msg
    else done cu

unfoldable pub dispatch_ng_successful : Env → CuCp → ℕ → NgMessage → Run CuCp
unfolding as_ng_setup_response
dispatch_ng_successful env cu code msg =
    if code == env.ng_setup then as_ng_setup_response cu msg else done cu

-- A decoding error is logged, and the PDU is read all the same: nil panics.
unfoldable pub dispatch : Env → CuCp → Bytes → Run CuCp
dispatch env cu raw =
    if length raw == 0
    then done cu
    else (must (env.ng_decode raw) >>= λ pdu.
        if pdu.present == env.ng_initiating
        then dispatch_ng_initiating env cu pdu.procedure_code pdu.msg
        else if pdu.present == env.ng_successful
        then dispatch_ng_successful env cu pdu.procedure_code pdu.msg
        else done cu)
