-- ===== src/Examples/Context/Messages.antt =====
-- Single messages and sequences of them.
use central_unit.Base.{◌≡◌, ◌⊎◌, refl, ap, length, some, [], ◌∷◌, Run, done, panic, ◌>>=◌, arith}
use central_unit.Bytes.Hex.{decode_string, from_hex_char, sprint_hex, hex_char}
use central_unit.Plmn.{convert_mcc_mnc, get_mcc_and_mnc_in_octets, plmn_matches}
use central_unit.Amf.{
  ng_setup_response, added_items, added_plmn, added, added_slices, added_slice, log_loop,
  get_plmn_support, get_slice_support,
}
use central_unit.Amf.Support.{IsLinked}
use central_unit.Amf.Setup.{ng_setup_response_lem, announced_plmns, set_up}
use central_unit.Cu.{CuCp, get_octets, send_f1ap}
use central_unit.Cu.F1.{
  handle_f1_setup_request, dispatch_f1, dispatch_pdu, dispatch_initiating, check_plmn, accept_du,
}
use central_unit.Cu.Ngap.{dispatch, dispatch_ng_successful, handle_ng_setup_response}
use central_unit.Cu.Safety.{IsSound}
use central_unit.Cu.Safety.Messages.{from_du, from_amf, Reach, here, next}
use central_unit.Bytes.{Bytes}
use central_unit.Wire.{ServedCellItem}
use central_unit.Du.{GnbDu}
use central_unit.Cu.Attach.Cell.{Serves, f1_setup-Serves}
use central_unit.Cu.Attach.Setup.{Accepts, Stores, handle_f1_setup_request_guard}
use central_unit.Examples.Context.{env, amf, cu, answer, setup}

-- The context that a call leaves.
abbrev pub after : Run CuCp → CuCp
after (done c) = c
after panic = cu

linked : IsLinked amf
linked = record { plmns_counted = refl; slices_counted = refl }

ng_setup_response_lem_example :
    ng_setup_response amf answer
    ≡ (announced_plmns answer.plmn_support >>= λ ps. done (set_up amf answer ps))
ng_setup_response_lem_example = ng_setup_response_lem amf answer linked

abbrev cu1 : CuCp
cu1 = after (dispatch env cu (1 ∷ []))

abbrev cu2 : CuCp
cu2 = after (dispatch_f1 env cu1 (1 ∷ []))

sound : IsSound cu
sound = record { ue_ok = tt; amf_ok = linked; du_ok = tt }

answered : dispatch env cu (1 ∷ []) ≡ done cu1
unfolding dispatch dispatch_ng_successful handle_ng_setup_response ng_setup_response added_items
    added_plmn added convert_mcc_mnc sprint_hex hex_char added_slices added_slice log_loop
    get_plmn_support get_slice_support
answered = refl

set_up_du : dispatch_f1 env cu1 (1 ∷ []) ≡ done cu2
unfolding dispatch_f1 dispatch_pdu dispatch_initiating handle_f1_setup_request check_plmn get_octets
    get_mcc_and_mnc_in_octets plmn_matches decode_string from_hex_char dispatch
    dispatch_ng_successful handle_ng_setup_response ng_setup_response added_items added_plmn added
    convert_mcc_mnc sprint_hex hex_char added_slices added_slice log_loop get_plmn_support
    get_slice_support
set_up_du = refl

two_messages : Reach env cu cu2
two_messages =
    next {cu1 = cu1} (next here (from_amf (1 ∷ []) answered)) (from_du (1 ∷ []) set_up_du)

accepted :
    handle_f1_setup_request env cu setup ≡ done (after (handle_f1_setup_request env cu setup))
unfolding handle_f1_setup_request check_plmn get_octets get_mcc_and_mnc_in_octets plmn_matches
    decode_string from_hex_char
accepted = refl

handle_f1_setup_request_guard_example :
    (after (handle_f1_setup_request env cu setup) ≡ cu)
    ⊎ ((a : Accepts cu setup) × Stores cu
          (after (handle_f1_setup_request env cu setup))
          setup
          a.item
          a.plmn)
handle_f1_setup_request_guard_example =
    handle_f1_setup_request_guard env cu (after (handle_f1_setup_request env cu setup)) setup
      accepted

f1_setup-Serves_example :
    (i : ServedCellItem) × (p : Bytes) × (du : GnbDu) × (setup.served_cells ≡ i ∷ [])
    × ((after (handle_f1_setup_request env cu setup)).du ≡ some du)
    × Serves cu i p 18 du
unfolding handle_f1_setup_request check_plmn get_octets get_mcc_and_mnc_in_octets plmn_matches
    decode_string from_hex_char accept_du send_f1ap
f1_setup-Serves_example =
    f1_setup-Serves env cu (after (handle_f1_setup_request env cu setup)) setup 18 accepted
      λ same. let count = ap (λ c. length c.writes) same in omega arith
