-- ===== src/Cu/Safety/Ngap.antt =====
-- Every message of the AMF keeps the context sound.
use central_unit.Base.{
  ℕ, List, length, ◌+◌, Option, none, some, done, must, arith, ◌==◌, ◌>>=◌, if◌then◌else◌,
}
use central_unit.Bytes.{Bytes}
use central_unit.Amf
use central_unit.Amf.{GnbAmf, Slice, NgSetupResponse}
use central_unit.Amf.Setup.{ng_setup_response_lem, announced_plmns, setup-IsLinked}
use central_unit.Wire.{
  Env, ng_setup_response, downlink_nas, context_setup, DownlinkNas, ContextSetup, NgMessage,
}
use central_unit.Ue.{Ue, create_ue_context}
use central_unit.Cu.{CuCp, send_f1ap}
use central_unit.Cu.Ngap
use central_unit.Cu.Ngap.{
  handle_ng_setup_response, handle_downlink_nas, handle_context_setup, dispatch_ng_initiating,
  dispatch_ng_successful, dispatch,
}
use central_unit.Cu.Safety.{IsSound, UeOk, AmfOk, Holds, Holds-seq, Holds-bind}
use central_unit.Cu.Safety.Branches.{if-IsSound, ue-UeOk}

create_ue_context-UeOk :
    (ue : Ue) (plmn imeisv : Bytes) (allowed : List Slice) (capabilities : ℕ)
    → UeOk (some ue)
    → Holds (λ u. UeOk (some u)) (create_ue_context ue plmn imeisv allowed capabilities)
unfolding create_ue_context
create_ue_context-UeOk ue plmn imeisv allowed capabilities k = ground arith

module _ (env : Env) (cu : CuCp) (h : IsSound cu) where
  set_up_amf :
      (o : Option GnbAmf)
      → AmfOk o
      → (msg : NgSetupResponse)
      → Holds (λ a. AmfOk (some a)) (must o >>= λ amf. Amf.ng_setup_response amf msg)
  set_up_amf none k msg = tt
  set_up_amf (some amf) k msg = rw (ng_setup_response_lem amf msg k) (
      Holds-bind (λ a. AmfOk (some a)) (announced_plmns msg.plmn_support) _
        λ ps. setup-IsLinked amf msg ps k)

  ng_setup-IsSound : (msg : NgSetupResponse) → Holds IsSound (handle_ng_setup_response cu msg)
  unfolding handle_ng_setup_response
  ng_setup-IsSound msg = answered cu.amf h.amf_ok
    where
      answered :
          (o : Option GnbAmf)
          → AmfOk o
          → Holds IsSound (
              must o >>= λ amf. Amf.ng_setup_response amf msg >>= λ amf'.
              done (record cu { amf = some amf'; ready_signals = cu.ready_signals + 1 }))
      answered none k = tt
      answered (some amf) k =
          Holds-seq (λ a. AmfOk (some a)) IsSound (Amf.ng_setup_response amf msg) _
            (set_up_amf (some amf) k msg) λ amf' k'. ground arith

  downlink_nas-IsSound : (msg : DownlinkNas) → Holds IsSound (handle_downlink_nas env cu msg)
  unfolding handle_downlink_nas send_f1ap
  downlink_nas-IsSound msg = ground arith

  context_setup-IsSound : (msg : ContextSetup) → Holds IsSound (handle_context_setup cu msg)
  unfolding handle_context_setup
  context_setup-IsSound msg =
      Holds-seq (λ ue. UeOk (some ue)) IsSound (must cu.ue) _ (ue-UeOk cu.ue h.ue_ok)
        λ ue k.
          Holds-seq (λ u. UeOk (some u)) IsSound (create_ue_context ue _ _ _ _) _
            (create_ue_context-UeOk ue _ _ _ _ k) λ ue' k'. ground arith

  dispatch_ng_initiating-IsSound :
      (code : ℕ) (msg : NgMessage) → Holds IsSound (dispatch_ng_initiating env cu code msg)
  unfolding dispatch_ng_initiating
  dispatch_ng_initiating-IsSound code msg =
      let second =
        if code == env.ng_initial_context_setup then Ngap.as_context_setup cu msg else done cu in
      if-IsSound (code == env.ng_downlink_nas) (Ngap.as_downlink_nas env cu msg) second (nas msg) (
        if-IsSound (code == env.ng_initial_context_setup) (Ngap.as_context_setup cu msg) (done cu)
          (setup msg) h)
    where
      nas : (m : NgMessage) → Holds IsSound (Ngap.as_downlink_nas env cu m)
      nas (downlink_nas m) = downlink_nas-IsSound m
      nas _ = tt

      setup : (m : NgMessage) → Holds IsSound (Ngap.as_context_setup cu m)
      setup (context_setup m) = context_setup-IsSound m
      setup _ = tt

  dispatch_ng_successful-IsSound :
      (code : ℕ) (msg : NgMessage) → Holds IsSound (dispatch_ng_successful env cu code msg)
  unfolding dispatch_ng_successful
  dispatch_ng_successful-IsSound code msg =
      if-IsSound (code == env.ng_setup) (Ngap.as_ng_setup_response cu msg) (done cu) (answer msg) h
    where
      answer : (m : NgMessage) → Holds IsSound (Ngap.as_ng_setup_response cu m)
      answer (ng_setup_response m) = ng_setup-IsSound m
      answer _ = tt

  pub dispatch-IsSound : (raw : Bytes) → Holds IsSound (dispatch env cu raw)
  unfolding dispatch
  dispatch-IsSound raw = if-IsSound (length raw == 0) (done cu) _ h (
      Holds-bind IsSound (must (env.ng_decode raw)) _ λ pdu.
        let initiating = dispatch_ng_initiating env cu pdu.procedure_code pdu.msg in
        let successful = dispatch_ng_successful env cu pdu.procedure_code pdu.msg in
        let outer = if pdu.present == env.ng_successful then successful else done cu in
        if-IsSound (pdu.present == env.ng_initiating) initiating outer
          (dispatch_ng_initiating-IsSound pdu.procedure_code pdu.msg)
          (if-IsSound (pdu.present == env.ng_successful) successful (done cu)
            (dispatch_ng_successful-IsSound pdu.procedure_code pdu.msg) h))
