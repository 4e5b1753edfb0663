-- ===== src/Cu/Rrc.antt =====
-- The RRC procedures of internal/context/protocol_rrc.go, with `SendNasPdu`, `ngInitialUEMessage`
-- and `ngUplinkNasTransport` of protocol_ngap.go, which carry their NAS messages to the AMF.
use central_unit.Base.{
  Bool, true, false, [], ◌∷◌, Option, none, some, if◌then◌else◌, Run, done, must, ◌>>=◌,
}
use central_unit.Bytes.{Bytes}
use central_unit.Asn1.{BitString, no_bits, build_5gs_tmsi, decode_5gs_tmsi}
use central_unit.Wire.{
  Env, InitialUlRrc, InitialUeIdentity, s_tmsi_part1, other_identity, RrcSetupRequest, TmsiValue,
  part2, full, other_value, SetupCompleteIes, rrc_setup, dl_rrc_transfer, ue_context_setup_request,
  initial_ue_message, uplink_nas_transport, initial_context_setup_response,
}
use central_unit.Ue.{Ue, UeState, initialized, ongoing, ready, down}
use central_unit.Du.{GnbDu}
use central_unit.Amf.{GnbAmf}
use central_unit.Cu.{
  CuCp, Status, ok, failed, Outcome, send_ngap, send_f1ap, get_octets, location, create_ue,
}

abbrev pub store : CuCp → Ue → CuCp
store cu ue = record cu { ue = some ue }

-- NAS towards the AMF.

-- The write of an encoded message; without one the error is logged.
unfoldable pub send_encoded : CuCp → GnbAmf → Option Bytes → Run CuCp
send_encoded cu amf none = done cu
send_encoded cu amf (some buf) = send_ngap cu amf buf

-- `SendNasPdu` by the state of the UE. A UE that is down has an empty buffer sent.
unfoldable pub send_nas_in : Env → CuCp → Bytes → Ue → GnbAmf → UeState → Run CuCp
send_nas_in env cu nas ue amf initialized =
    let msg = initial_ue_message ue.ran_ue_ngap_id nas (location env cu) ue.tmsi in
    send_encoded (store cu (record ue { state = ongoing })) amf (env.ng_encode msg)
send_nas_in env cu nas ue amf down = send_ngap (store cu ue) amf []
send_nas_in env cu nas ue amf _ =
    let msg = uplink_nas_transport ue.amf_ue_ngap_id ue.ran_ue_ngap_id nas (location env cu) in
    send_encoded (store cu ue) amf (env.ng_encode msg)

unfoldable pub send_nas_pdu : Env → CuCp → Bytes → Ue → GnbAmf → Run CuCp
unfolding send_nas_in
send_nas_pdu env cu nas ue amf = send_nas_in env cu nas ue amf ue.state

-- RRC Setup Request.

unfoldable pub identity_bits : InitialUeIdentity → BitString
identity_bits (s_tmsi_part1 b) = b
identity_bits _ = no_bits

unfoldable pub with_part1 : InitialUeIdentity → Ue → Ue
with_part1 (s_tmsi_part1 b) ue = record ue { tmsi_part1 = some b }
with_part1 _ ue = ue

abbrev pub is_supported : InitialUeIdentity → Bool
is_supported other_identity = false
is_supported _ = true

-- RRC Setup in a DL RRC Message Transfer on SRB 0.
unfoldable pub send_rrc_setup : Env → CuCp → GnbDu → Ue → Bytes → CuCp × Status
send_rrc_setup env cu du ue container = elim (env.rrc_encode (rrc_setup 1 container)) [
  | none ↦ (cu, failed)
  | some b ↦
      elim (env.f1_encode (
        dl_rrc_transfer (record {
          gnb_cu_ue_id = ue.rrc_ue_id;
          gnb_du_ue_id = ue.du_ue_id;
          srb_id = 0;
          rrc_container = b;
        }))) [ none ↦ (cu, failed) | some pdu ↦ send_f1ap env cu du pdu ]
]

-- The checks behind the creation of the UE, in their order.
unfoldable pub accept_setup :
    Env → CuCp → GnbDu → Ue → RrcSetupRequest → InitialUlRrc → CuCp × Status
unfolding send_rrc_setup
accept_setup env cu du ue req msg = elim msg.du_to_cu_container [
  | none ↦ (cu, failed)
  | some container ↦ elim (env.decode_cell_group container) [
    | none ↦ (cu, failed)
    | some group ↦
        let ue' = record ue {
          master_cell_group = some group;
          establishment_cause = some req.establishment_cause;
          nr_cell_id = some msg.nr_cell_identity;
        } in
        send_rrc_setup env (store cu ue') du ue' container
  ]
]

unfoldable pub handle_rrc_setup_request :
    Env → CuCp → Option GnbDu → RrcSetupRequest → InitialUlRrc → Outcome
unfolding identity_bits with_part1 create_ue
handle_rrc_setup_request env cu du? req msg = do
  du ← must du?
  (cu1, fresh) ← create_ue cu du.du_id msg.c_rnti (identity_bits req.ue_identity) msg.gnb_du_ue_id
  let ue = with_part1 req.ue_identity fresh
  done (
      if is_supported req.ue_identity
      then accept_setup env (store cu1 ue) du ue req msg
      else (store cu1 ue, failed))

-- RRC Setup Complete.

-- `tmsi5gs`: both parts joined, the full value, or nothing. A full value with a nil pointer panics.
unfoldable pub tmsi_bytes : Ue → TmsiValue → Run Bytes
tmsi_bytes ue (part2 p2) = elim ue.tmsi_part1 [
  | none ↦ done []
  | some p1 ↦ done (build_5gs_tmsi p2 p1)
]
tmsi_bytes ue (full b) = must b
tmsi_bytes ue other_value = done []

-- `none` is the error of `Decode5GSTMSI`, which leaves the UE with no 5G-S-TMSI.
abbrev pub take_tmsi : Ue → Bytes → Ue × Status
take_tmsi ue [] = (ue, ok)
take_tmsi ue (b ∷ bs) = elim (decode_5gs_tmsi (b ∷ bs)) [
  | none ↦ (record ue { tmsi = none }, failed)
  | some t ↦ (record ue { tmsi = some t; random_identity = b ∷ bs }, ok)
]

unfoldable pub learn_tmsi : Ue → Option TmsiValue → Run (Ue × Status)
unfolding tmsi_bytes
learn_tmsi ue none = done (ue, ok)
learn_tmsi ue (some v) = tmsi_bytes ue v >>= λ b. done (take_tmsi ue b)

-- With the UE as the last check left it: the state is reset and the NAS message goes to the AMF.
unfoldable pub register : Env → CuCp → Bytes → Ue → Status → Outcome
register env cu nas ue failed = done (store cu ue, failed)
register env cu nas ue ok = do
  amf ← must cu.amf
  cu' ← send_nas_pdu env cu nas (record ue { state = initialized }) amf
  done (cu', ok)

unfoldable pub handle_rrc_setup_complete : Env → CuCp → Ue → Option SetupCompleteIes → Outcome
handle_rrc_setup_complete env cu ue msg = do
  ies ← must msg
  (ue', status) ← learn_tmsi ue ies.tmsi_value
  register env cu ies.dedicated_nas ue' status

-- UL Information Transfer.
unfoldable pub handle_ul_information_transfer : Env → CuCp → Ue → Option Bytes → Outcome
handle_ul_information_transfer env cu ue msg = do
  nas ← must msg
  amf ← must cu.amf
  cu' ← send_nas_pdu env cu nas (record ue { state = ongoing }) amf
  done (cu', ok)

-- Security Mode Complete: the UE Context Setup Request, with SRB 2 and DRB 0.
unfoldable pub handle_security_mode_complete : Env → CuCp → Ue → Outcome
handle_security_mode_complete env cu ue = do
  plmn ← get_octets cu
  cell ← must ue.nr_cell_id
  elim (env.f1_encode (
      ue_context_setup_request (record {
        gnb_cu_ue_id = ue.rrc_ue_id;
        gnb_du_ue_id = ue.du_ue_id;
        plmn = plmn;
        cell = cell;
        srb = 2;
        drb = 0;
      }))) [
        | none ↦ done (cu, failed)
        | some pdu ↦ must cu.du >>= λ du. done (send_f1ap env cu du pdu)
      ]

-- RRC Reconfiguration Complete: the UE is ready, and the AMF is answered.
unfoldable pub handle_rrc_reconfiguration_complete : Env → CuCp → Ue → Outcome
handle_rrc_reconfiguration_complete env cu ue =
    let cu1 = store cu (record ue { state = ready }) in
    elim (env.ng_encode (initial_context_setup_response ue.amf_ue_ngap_id ue.ran_ue_ngap_id)) [
      | none ↦ done (cu1, failed)
      | some pdu ↦ must cu1.amf >>= λ amf. send_ngap cu1 amf pdu >>= λ cu2. done (cu2, ok)
    ]
