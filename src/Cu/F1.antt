-- ===== src/Cu/F1.antt =====
-- F1AP from the DU: `dispatchF1` of internal/context/handle_du.go and the handlers of
-- internal/context/protocol_f1c.go.
use central_unit.Base.{
  ℕ, ◌^◌, ◌%◌, Bool, not, ◌||◌, List, [], ◌∷◌, ◌++◌, length, leb, Option, none, some, if◌then◌else◌,
  ◌==◌, Run, done, panic, must, ◌>>=◌,
}
use central_unit.Bytes.{Bytes}
use central_unit.Bytes.Hex.{sprint_hex, sprint_hex_uint64}
use central_unit.Asn1.{extract_cell_id_value}
use central_unit.Plmn.{plmn_matches}
use central_unit.Wire.{
  Env, F1SetupRequest, ServedCellItem, SystemInformation, InitialUlRrc, UlRrc, F1Message,
  f1_setup_request, initial_ul_rrc, ul_rrc, ue_context_setup_response, F1Pdu, UlDcch, UlDcchC1,
  rrc_setup_complete, ul_information_transfer, security_mode_complete, rrc_reconfiguration_complete,
  other_c1, f1_setup_response, rrc_reconfiguration, cell_group,
}
use central_unit.Ue.{Ue}
use central_unit.Du.{GnbDu, ServedCell, du_active}
use central_unit.Cu.{CuCp, Status, failed, Outcome, send_f1ap, get_octets}
use central_unit.Cu.Rrc.{
  handle_rrc_setup_request, handle_rrc_setup_complete, handle_ul_information_transfer,
  handle_security_mode_complete, handle_rrc_reconfiguration_complete,
}

-- A handler whose error is only logged.
abbrev pub logged : Outcome → Run CuCp
logged m = m >>= λ r. done r.0

-- Go on with a decoded value; without one the context is left as it is.
abbrev pub or_unchanged {ℓ} : {A : Type ℓ} → CuCp → Option A → (A → Run CuCp) → Run CuCp
or_unchanged cu none k = done cu
or_unchanged cu (some a) k = k a

-- F1 Setup.

abbrev mib_of : Option SystemInformation → Bytes
mib_of none = []
mib_of (some s) = s.mib

abbrev sib1_of : Option SystemInformation → Bytes
sib1_of none = []
sib1_of (some s) = s.sib1

unfoldable pub served_cell : CuCp → ServedCellItem → Bytes → ServedCell
served_cell cu item plmn =
    let id = extract_cell_id_value item.nr_cell_identity in
    record {
      cell_id = id;
      global_cell_id = sprint_hex plmn ++ b'-' ∷ sprint_hex_uint64 id;
      plmn = record { mcc = cu.control_info.mcc; mnc = cu.control_info.mnc };
      pci = item.nr_pci % 2 ^ 16;
      bandwidth_mhz = 0;
      tac = item.five_gs_tac;
    }

-- The DU context, with the socket that `SendF1SetupResponse` puts in.
unfoldable pub accepted_du : CuCp → F1SetupRequest → ServedCellItem → Bytes → GnbDu
unfolding served_cell
accepted_du cu req item plmn = record {
  du_id = req.gnb_du_id;
  du_name = req.gnb_du_name;
  state = du_active;
  conn = cu.temp_du_conn;
  setup_req = req;
  mib = mib_of item.system_information;
  sib1 = sib1_of item.system_information;
  mtc = item.timing_configuration;
  served_cells = served_cell cu item plmn ∷ [];
}

-- `DuPool.Store`: the newest entry of a key stands first.
abbrev pub pool_store : List (ℕ × GnbDu) → ℕ → GnbDu → List (ℕ × GnbDu)
pool_store pool id du = (id, du) ∷ pool

-- `SendF1SetupResponse`, with the socket already in `du`.
abbrev pub send_f1_setup_response :
    Env → CuCp → GnbDu → F1SetupRequest → ServedCellItem → Bytes → CuCp × Status
send_f1_setup_response env cu du req item plmn =
    elim (env.f1_encode (
      f1_setup_response req.transaction_id req.rrc_version plmn item.nr_cell_identity
        item.nr_pci)) [ none ↦ (cu, failed) | some pdu ↦ send_f1ap env cu du pdu ]

-- An error of the response is logged; the DU stays stored.
unfoldable pub accept_du : Env → CuCp → F1SetupRequest → ServedCellItem → Bytes → CuCp
unfolding accepted_du
accept_du env cu req item plmn =
    let du = accepted_du cu req item plmn in
    let cu' = record cu { du = some du; du_pool = pool_store cu.du_pool req.gnb_du_id du } in
    (send_f1_setup_response env cu' du req item plmn).0

-- The PLMN of the cell against the CU's own.
unfoldable pub check_plmn : Env → CuCp → F1SetupRequest → ServedCellItem → List Bytes → Run CuCp
check_plmn env cu req item [] = done cu
check_plmn env cu req item (cell_plmn ∷ _) = get_octets cu >>= λ cu_plmn.
    if plmn_matches cell_plmn cu_plmn then done (accept_du env cu req item cell_plmn) else done cu

-- The first cell is read before the number of cells is looked at.
unfoldable pub check_cells : Env → CuCp → F1SetupRequest → List ServedCellItem → Run CuCp
check_cells env cu req [] = panic
check_cells env cu req (item ∷ others) =
    if not (length others == 0) then done cu else check_plmn env cu req item item.served_plmns

unfoldable pub handle_f1_setup_request : Env → CuCp → F1SetupRequest → Run CuCp
unfolding check_cells
handle_f1_setup_request env cu req = check_cells env cu req req.served_cells

-- Initial UL RRC Message Transfer. A CCCH message that is no RRC Setup Request panics.
unfoldable pub handle_initial_ul_rrc : Env → CuCp → InitialUlRrc → Run CuCp
handle_initial_ul_rrc env cu msg = or_unchanged cu (env.decode_ul_ccch msg.rrc_container) λ m.
    must m.c1 >>= λ c1. must c1 >>= λ req. logged (handle_rrc_setup_request env cu cu.du req msg)

-- UL RRC Message Transfer.

unfoldable pub dispatch_dcch : Env → CuCp → Ue → UlDcchC1 → Run CuCp
dispatch_dcch env cu ue (rrc_setup_complete m) =
    or_unchanged cu m (λ ies. logged (handle_rrc_setup_complete env cu ue ies))
dispatch_dcch env cu ue (ul_information_transfer m) =
    or_unchanged cu m (λ nas. logged (handle_ul_information_transfer env cu ue nas))
dispatch_dcch env cu ue (security_mode_complete m) =
    or_unchanged cu m (λ _. logged (handle_security_mode_complete env cu ue))
dispatch_dcch env cu ue (rrc_reconfiguration_complete m) =
    or_unchanged cu m (λ _. logged (handle_rrc_reconfiguration_complete env cu ue))
dispatch_dcch env cu ue other_c1 = done cu

-- `msg.SRBID < 1`, on the bit pattern of an int64.
abbrev pub bad_srb : ℕ → Bool
bad_srb srb = srb == 0 || leb (2 ^ 63) srb

unfoldable pub open_dcch : Env → CuCp → Ue → UlDcch → Run CuCp
open_dcch env cu ue m =
    if not (m.choice == 1) then done cu else or_unchanged cu m.c1 (dispatch_dcch env cu ue)

unfoldable pub decode_dcch : Env → CuCp → Ue → Bytes → Run CuCp
decode_dcch env cu ue container =
    or_unchanged cu (env.decode_ul_dcch container) (open_dcch env cu ue)

unfoldable pub handle_ul_rrc : Env → CuCp → UlRrc → Run CuCp
handle_ul_rrc env cu msg = must cu.ue >>= λ ue.
    if not (msg.gnb_du_ue_id == ue.du_ue_id)
    then done cu
    else if bad_srb msg.srb_id
    then done cu
    else decode_dcch env cu ue msg.rrc_container

-- UE Context Setup Response: the RRC Reconfiguration is written to the DU as it is.
unfoldable pub handle_ue_context_setup_response : Env → CuCp → Run CuCp
handle_ue_context_setup_response env cu = must cu.ue >>= λ ue.
    or_unchanged cu (env.rrc_encode (cell_group ue.master_cell_group)) λ mcg.
      or_unchanged cu (env.rrc_encode (rrc_reconfiguration 2 0 mcg ue.registration_accept))
        λ buf. must cu.du >>= λ du. done (send_f1ap env cu du buf).0

-- The type assertions on the message. Only the one for F1 Setup is unchecked.

unfoldable pub as_f1_setup : Env → CuCp → F1Message → Run CuCp
as_f1_setup env cu (f1_setup_request r) = handle_f1_setup_request env cu r
as_f1_setup env cu _ = panic

unfoldable pub as_initial_ul_rrc : Env → CuCp → F1Message → Run CuCp
as_initial_ul_rrc env cu (initial_ul_rrc m) = handle_initial_ul_rrc env cu m
as_initial_ul_rrc env cu _ = done cu

unfoldable pub as_ul_rrc : Env → CuCp → F1Message → Run CuCp
as_ul_rrc env cu (ul_rrc m) = handle_ul_rrc env cu m
as_ul_rrc env cu _ = done cu

unfoldable pub as_context_setup_response : Env → CuCp → F1Message → Run CuCp
as_context_setup_response env cu ue_context_setup_response = handle_ue_context_setup_response env cu
as_context_setup_response env cu _ = done cu

-- The two inner switches.
unfoldable pub dispatch_initiating : Env → CuCp → ℕ → F1Message → Run CuCp
unfolding as_f1_setup as_initial_ul_rrc as_ul_rrc
dispatch_initiating env cu code msg =
    if code == env.f1_setup
    then as_f1_setup env cu msg
    else if code == env.f1_initial_ul_rrc
    then as_initial_ul_rrc env cu msg
    else if code == env.f1_ul_rrc
    then as_ul_rrc env cu msg
    else done cu

unfoldable pub dispatch_successful : Env → CuCp → ℕ → F1Message → Run CuCp
unfolding as_context_setup_response
dispatch_successful env cu code msg =
    if code == env.f1_ue_context_setup then as_context_setup_response env cu msg else done cu

unfoldable pub dispatch_pdu : Env → CuCp → F1Pdu → Run CuCp
dispatch_pdu env cu pdu =
    if pdu.present == 0 || pdu.procedure_code == 0
    then done cu
    else if pdu.present == env.f1_initiating
    then dispatch_initiating env cu pdu.procedure_code pdu.msg
    else if pdu.present == env.f1_successful
    then dispatch_successful env cu pdu.procedure_code pdu.msg
    else done cu

unfoldable pub dispatch_f1 : Env → CuCp → Bytes → Run CuCp
dispatch_f1 env cu raw =
    if length raw == 0 then done cu else or_unchanged cu (env.f1_decode raw) (dispatch_pdu env cu)
