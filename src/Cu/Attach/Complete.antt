-- ===== src/Cu/Attach/Complete.antt =====
-- The second half of an attachment, after the Initial Context Setup Request: Security Mode Complete,
-- UE Context Setup Response and RRC Reconfiguration Complete, with the handlers that they reach.
use central_unit.Base.{
  ◌≡◌, false, List, [], ◌∷◌, ◌++◌, append_assoc, ◌∙◌, ap, some, done, ◌>>=◌, arith, true,
}
use central_unit.Base.{ℕ}
use central_unit.Bytes.{Bytes}
use central_unit.Asn1.{BitString}
use central_unit.Wire.{
  Env, ContextSetup, UlRrc, UlDcchC1, security_mode_complete, rrc_reconfiguration_complete,
  cell_group, rrc_reconfiguration, ue_context_setup_request, initial_context_setup_response,
}
use central_unit.Ue.{Ue, ready}
use central_unit.Du.{GnbDu}
use central_unit.Amf.{GnbAmf}
use central_unit.Cu.{CuCp, Write, get_octets, send_ngap, send_f1ap, to_amf, to_du}
use central_unit.Cu.Rrc.{handle_security_mode_complete, handle_rrc_reconfiguration_complete}
use central_unit.Cu.F1.{
  bad_srb, handle_ul_rrc, decode_dcch, open_dcch, dispatch_dcch, handle_ue_context_setup_response,
}
use central_unit.Cu.Ngap.{handle_context_setup}
use central_unit.Cu.Attach.Accept.{kept, forwarded}

-- The message is from the UE, on a bearer other than SRB 0, and carries the RRC message.
pub record Carries (env : Env) (ue : Ue) (msg : UlRrc) (m : UlDcchC1) : Type 0 where
  pub from_ue : msg.gnb_du_ue_id ≡ ue.du_ue_id
  pub bearer : bad_srb msg.srb_id ≡ false
  pub decoded : env.decode_ul_dcch msg.rrc_container ≡ some (record { choice = 1; c1 = some m })

-- The UE, its neighbours, and what their messages are encoded to.
pub record IsPrepared (env : Env) (cu : CuCp) (ue : Ue) (du : GnbDu) (amf : GnbAmf) (socket : ℕ)
    (cell : BitString) (plmn nas group request accept response : Bytes) : Type 0 where
  pub has_ue : cu.ue ≡ some ue
  pub has_du : cu.du ≡ some du
  pub has_socket : du.conn ≡ some socket
  pub has_amf : cu.amf ≡ some amf
  pub connected : amf.connected ≡ true
  pub has_cell : ue.nr_cell_id ≡ some cell
  pub octets : get_octets cu ≡ done plmn
  pub group_encoded : env.rrc_encode (cell_group ue.master_cell_group) ≡ some group
  pub request_encoded :
      env.f1_encode (
        ue_context_setup_request (record {
          gnb_cu_ue_id = ue.rrc_ue_id;
          gnb_du_ue_id = ue.du_ue_id;
          plmn = plmn;
          cell = cell;
          srb = 2;
          drb = 0;
        }))
      ≡ some request
  pub accept_encoded : env.rrc_encode (rrc_reconfiguration 2 0 group nas) ≡ some accept
  pub response_encoded :
      env.ng_encode (initial_context_setup_response ue.amf_ue_ngap_id ue.ran_ue_ngap_id)
      ≡ some response

secured :
    (env : Env) (cu : CuCp) (ue : Ue) (du : GnbDu) (amf : GnbAmf) (socket : ℕ) (cell : BitString)
    (plmn nas group request accept response : Bytes) (msg : UlRrc)
    → IsPrepared env cu ue du amf socket cell plmn nas group request accept response
    → Carries env ue msg (security_mode_complete (some tt))
    → handle_ul_rrc env cu msg
      ≡ done (record cu { writes = cu.writes ++ to_du socket request ∷ [] })
unfolding handle_ul_rrc decode_dcch open_dcch dispatch_dcch handle_security_mode_complete send_f1ap
secured env cu ue du amf socket cell plmn nas group request accept response msg p c = ground (
  arith, p.has_ue, p.has_du, p.has_socket, p.has_cell, p.octets, p.request_encoded, c.from_ue,
  c.bearer, c.decoded,
)

reconfigured :
    (env : Env) (cu : CuCp) (ue : Ue) (amf : GnbAmf) (response : Bytes) (msg : UlRrc)
    → cu.ue ≡ some ue
    → cu.amf ≡ some amf
    → amf.connected ≡ true
    → env.ng_encode (initial_context_setup_response ue.amf_ue_ngap_id ue.ran_ue_ngap_id)
      ≡ some response
    → Carries env ue msg (rrc_reconfiguration_complete (some tt))
    → handle_ul_rrc env cu msg
      ≡ done (record cu {
        ue = some (record ue { state = ready });
        writes = cu.writes ++ to_amf response ∷ [];
      })
unfolding handle_ul_rrc decode_dcch open_dcch dispatch_dcch handle_rrc_reconfiguration_complete
    send_ngap
reconfigured env cu ue amf response msg u a k e c = ground (arith, c.from_ue, c.bearer, c.decoded)

-- After an Initial Context Setup Request that is handled, a Security Mode Complete of the UE, the
-- UE Context Setup Response of the DU and an RRC Reconfiguration Complete of the UE finish the
-- attachment: over the three messages exactly three writes are made, the UE Context Setup Request to
-- the DU with SRB 2 and DRB 0, the RRC Reconfiguration with the NAS message of the Initial Context
-- Setup Request, and the Initial Context Setup Response to the AMF. The UE is ready, and nothing
-- else is changed. The condition is that the messages decode and name the UE, that the answers
-- encode, and that the AMF and the DU are connected.
pub attach_completes :
    (env : Env) (cu0 cu : CuCp) (setup : ContextSetup) (ue : Ue) (du : GnbDu) (amf : GnbAmf)
    (socket : ℕ) (cell : BitString) (plmn group request accept response : Bytes)
    (secure complete : UlRrc)
    → handle_context_setup cu0 setup ≡ done cu
    → IsPrepared env cu ue du amf socket cell plmn setup.nas_pdu group request accept response
    → Carries env ue secure (security_mode_complete (some tt))
    → Carries env ue complete (rrc_reconfiguration_complete (some tt))
    → (handle_ul_rrc env cu secure >>= λ cu1.
        handle_ue_context_setup_response env cu1 >>= λ cu2. handle_ul_rrc env cu2 complete)
      ≡ done (record cu {
        ue = some (record ue { state = ready });
        writes = cu.writes ++ to_du socket request ∷ to_du socket accept ∷ to_amf response ∷ [];
      })
attach_completes env cu0 cu setup ue du amf socket cell plmn group request accept response secure
      complete h p s c =
    let cu1 = record cu { writes = cu.writes ++ to_du socket request ∷ [] } in
    let cu2 = record cu1 { writes = cu1.writes ++ to_du socket accept ∷ [] } in
    let first =
      secured env cu ue du amf socket cell plmn setup.nas_pdu group request accept response secure p
        s in
    let second =
      forwarded env cu1 ue du socket group accept p.has_ue p.has_du p.has_socket p.group_encoded
        (rw (kept cu0 cu setup ue h p.has_ue) p.accept_encoded) in
    let third =
      reconfigured env cu2 ue amf response complete p.has_ue p.has_amf p.connected
        p.response_encoded c in
    rw (first, second, third)
      (ap
        (λ (w : List Write).
          done (record cu { ue = some (record ue { state = ready }); writes = w }))
        (append_assoc (cu.writes ++ to_du socket request ∷ []) (to_du socket accept ∷ [])
            (to_amf response ∷ [])
          ∙ append_assoc cu.writes (to_du socket request ∷ [])
              (to_du socket accept ∷ to_amf response ∷ [])))
