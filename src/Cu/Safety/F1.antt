-- ===== src/Cu/Safety/F1.antt =====
-- Every message of the DU keeps the context sound.
use central_unit.Base.{
  ℕ, not, ◌||◌, List, [], ◌∷◌, length, some, done, must, arith, ◌==◌, if◌then◌else◌,
}
use central_unit.Bytes.{Bytes}
use central_unit.Plmn.{plmn_matches}
use central_unit.Wire.{
  Env, F1SetupRequest, ServedCellItem, InitialUlRrc, UlRrc, UlDcchC1, rrc_setup_complete,
  ul_information_transfer, security_mode_complete, rrc_reconfiguration_complete, other_c1,
  ue_context_setup_response, F1Message, F1Pdu, f1_setup_request, initial_ul_rrc, ul_rrc, cell_group,
}
use central_unit.Ue.{Ue}
use central_unit.Cu.{CuCp, send_f1ap, get_octets}
use central_unit.Cu.F1
use central_unit.Cu.F1.{
  logged, accept_du, handle_f1_setup_request, handle_initial_ul_rrc, dispatch_dcch, bad_srb,
  open_dcch, decode_dcch, handle_ul_rrc, handle_ue_context_setup_response, or_unchanged,
  dispatch_initiating, dispatch_successful, dispatch_pdu, dispatch_f1,
}
use central_unit.Cu.Safety.{IsSound, UeOk, Holds, Holds-seq, Holds-bind}
use central_unit.Cu.Safety.Rrc.{
  send_f1ap-IsSound, handle_rrc_setup_request-IsSound, handle_rrc_setup_complete-IsSound,
  handle_ul_information_transfer-IsSound, handle_security_mode_complete-IsSound,
  handle_rrc_reconfiguration_complete-IsSound,
}
use central_unit.Cu.Safety.Branches.{logged-IsSound, or_unchanged-IsSound, if-IsSound, ue-UeOk}

module _ (env : Env) (cu : CuCp) (h : IsSound cu) where
  accept_du-IsSound :
      (req : F1SetupRequest) (item : ServedCellItem) (plmn : Bytes)
      → IsSound (accept_du env cu req item plmn)
  unfolding accept_du send_f1ap
  accept_du-IsSound req item plmn = ground arith

  f1_setup-cell :
      (req : F1SetupRequest) (item : ServedCellItem) (plmns : List Bytes)
      → Holds IsSound (F1.check_plmn env cu req item plmns)
  unfolding F1.check_plmn
  f1_setup-cell req item [] = h
  f1_setup-cell req item (p ∷ ps) = Holds-bind IsSound (get_octets cu) _ λ own.
      if-IsSound (plmn_matches p own) (done (accept_du env cu req item p)) (done cu)
        (accept_du-IsSound req item p) h

  f1_setup-IsSound : (req : F1SetupRequest) → Holds IsSound (handle_f1_setup_request env cu req)
  unfolding handle_f1_setup_request
  f1_setup-IsSound req = cells req.served_cells
    where
      cells : (items : List ServedCellItem) → Holds IsSound (F1.check_cells env cu req items)
      cells [] = tt
      cells (item ∷ others) =
          if-IsSound (not (length others == 0)) (done cu)
            (F1.check_plmn env cu req item item.served_plmns) h
            (f1_setup-cell req item item.served_plmns)

  initial_ul_rrc-IsSound : (msg : InitialUlRrc) → Holds IsSound (handle_initial_ul_rrc env cu msg)
  unfolding handle_initial_ul_rrc
  initial_ul_rrc-IsSound msg =
      or_unchanged-IsSound cu (env.decode_ul_ccch msg.rrc_container) _ h λ m.
        Holds-bind IsSound (must m.c1) _ λ c1.
          Holds-bind IsSound (must c1) _
            λ req. logged-IsSound _ (handle_rrc_setup_request-IsSound env cu cu.du req msg h)

  dispatch_dcch-IsSound :
      (ue : Ue) → UeOk (some ue) → (c1 : UlDcchC1) → Holds IsSound (dispatch_dcch env cu ue c1)
  unfolding dispatch_dcch
  dispatch_dcch-IsSound ue k (rrc_setup_complete m) =
      or_unchanged-IsSound cu m _ h
        λ ies. logged-IsSound _ (handle_rrc_setup_complete-IsSound env cu ue ies h k)
  dispatch_dcch-IsSound ue k (ul_information_transfer m) =
      or_unchanged-IsSound cu m _ h
        λ nas. logged-IsSound _ (handle_ul_information_transfer-IsSound env cu ue nas h k)
  dispatch_dcch-IsSound ue k (security_mode_complete m) =
      or_unchanged-IsSound cu m _ h
        λ _. logged-IsSound _ (handle_security_mode_complete-IsSound env cu ue h)
  dispatch_dcch-IsSound ue k (rrc_reconfiguration_complete m) =
      or_unchanged-IsSound cu m _ h
        λ _. logged-IsSound _ (handle_rrc_reconfiguration_complete-IsSound env cu ue h k)
  dispatch_dcch-IsSound ue k other_c1 = h

  decode_dcch-IsSound :
      (ue : Ue)
      → UeOk (some ue)
      → (container : Bytes) → Holds IsSound (decode_dcch env cu ue container)
  unfolding decode_dcch open_dcch
  decode_dcch-IsSound ue k container =
      or_unchanged-IsSound cu (env.decode_ul_dcch container) (F1.open_dcch env cu ue) h λ m.
        if-IsSound (not (m.choice == 1)) (done cu) (or_unchanged cu m.c1 (dispatch_dcch env cu ue))
          h (or_unchanged-IsSound cu m.c1 (dispatch_dcch env cu ue) h (dispatch_dcch-IsSound ue k))

  ul_rrc-IsSound : (msg : UlRrc) → Holds IsSound (handle_ul_rrc env cu msg)
  unfolding handle_ul_rrc
  ul_rrc-IsSound msg =
      Holds-seq (λ ue. UeOk (some ue)) IsSound (must cu.ue) _ (ue-UeOk cu.ue h.ue_ok)
        λ ue k.
          let last = decode_dcch env cu ue msg.rrc_container in
          if-IsSound (not (msg.gnb_du_ue_id == ue.du_ue_id)) (done cu)
            (if bad_srb msg.srb_id then done cu else last) h
            (if-IsSound (bad_srb msg.srb_id) (done cu) last h
              (decode_dcch-IsSound ue k msg.rrc_container))

  ue_context_setup_response-IsSound : Holds IsSound (handle_ue_context_setup_response env cu)
  unfolding handle_ue_context_setup_response
  ue_context_setup_response-IsSound = Holds-bind IsSound (must cu.ue) _ λ ue.
      or_unchanged-IsSound cu (env.rrc_encode (cell_group ue.master_cell_group)) _ h λ mcg.
        or_unchanged-IsSound cu _ _ h
          λ buf. Holds-bind IsSound (must cu.du) _ λ du. send_f1ap-IsSound env cu du buf h

  dispatch_initiating-IsSound :
      (code : ℕ) (msg : F1Message) → Holds IsSound (dispatch_initiating env cu code msg)
  unfolding dispatch_initiating
  dispatch_initiating-IsSound code msg =
      let third = if code == env.f1_ul_rrc then F1.as_ul_rrc env cu msg else done cu in
      let second =
        if code == env.f1_initial_ul_rrc then F1.as_initial_ul_rrc env cu msg else third in
      if-IsSound (code == env.f1_setup) (F1.as_f1_setup env cu msg) second (setup msg) (
        if-IsSound (code == env.f1_initial_ul_rrc) (F1.as_initial_ul_rrc env cu msg) third
          (initial msg)
          (if-IsSound (code == env.f1_ul_rrc) (F1.as_ul_rrc env cu msg) (done cu) (uplink msg) h))
    where
      setup : (m : F1Message) → Holds IsSound (F1.as_f1_setup env cu m)
      setup (f1_setup_request r) = f1_setup-IsSound r
      setup _ = tt

      initial : (m : F1Message) → Holds IsSound (F1.as_initial_ul_rrc env cu m)
      initial (initial_ul_rrc m) = initial_ul_rrc-IsSound m
      initial _ = h

      uplink : (m : F1Message) → Holds IsSound (F1.as_ul_rrc env cu m)
      uplink (ul_rrc m) = ul_rrc-IsSound m
      uplink _ = h

  dispatch_successful-IsSound :
      (code : ℕ) (msg : F1Message) → Holds IsSound (dispatch_successful env cu code msg)
  unfolding dispatch_successful
  dispatch_successful-IsSound code msg =
      if-IsSound (code == env.f1_ue_context_setup) (F1.as_context_setup_response env cu msg)
        (done cu) (answer msg) h
    where
      answer : (m : F1Message) → Holds IsSound (F1.as_context_setup_response env cu m)
      answer ue_context_setup_response = ue_context_setup_response-IsSound
      answer _ = h

  dispatch_pdu-IsSound : (pdu : F1Pdu) → Holds IsSound (dispatch_pdu env cu pdu)
  unfolding dispatch_pdu
  dispatch_pdu-IsSound pdu =
      let initiating = dispatch_initiating env cu pdu.procedure_code pdu.msg in
      let successful = dispatch_successful env cu pdu.procedure_code pdu.msg in
      let outer = if pdu.present == env.f1_successful then successful else done cu in
      if-IsSound (pdu.present == 0 || pdu.procedure_code == 0) (done cu)
        (if pdu.present == env.f1_initiating then initiating else outer) h
        (if-IsSound (pdu.present == env.f1_initiating) initiating outer
          (dispatch_initiating-IsSound pdu.procedure_code pdu.msg)
          (if-IsSound (pdu.present == env.f1_successful) successful (done cu)
            (dispatch_successful-IsSound pdu.procedure_code pdu.msg) h))

  pub dispatch_f1-IsSound : (raw : Bytes) → Holds IsSound (dispatch_f1 env cu raw)
  unfolding dispatch_f1
  dispatch_f1-IsSound raw =
      if-IsSound (length raw == 0) (done cu) _ h
        (or_unchanged-IsSound cu (env.f1_decode raw) (dispatch_pdu env cu) h dispatch_pdu-IsSound)
