-- ===== src/Cu/Attach/Accept.antt =====
-- The way of the Registration Accept: it arrives in the Initial Context Setup Request, and leaves
-- in the RRC Reconfiguration once the DU has set up the UE's context.
use central_unit.Base.{
  ◌≡◌, [], ◌∷◌, ◌++◌, some, done, arith, Run-cases, Option-cases, inl, inr, map,
}
use central_unit.Bytes.{Bytes}
use central_unit.Wire.{Env, ContextSetup, cell_group, rrc_reconfiguration}
use central_unit.Base.{ℕ}
use central_unit.Ue.{Ue, create_ue_context}
use central_unit.Du.{GnbDu}
use central_unit.Cu.{CuCp, send_f1ap, to_du}
use central_unit.Cu.F1.{handle_ue_context_setup_response}
use central_unit.Cu.Ngap.{or_not_informed, allowed_slice, handle_context_setup}

pub kept :
    (cu cu1 : CuCp) (msg : ContextSetup) (ue1 : Ue)
    → handle_context_setup cu msg ≡ done cu1
    → cu1.ue ≡ some ue1
    → ue1.registration_accept ≡ msg.nas_pdu
unfolding handle_context_setup
kept cu cu1 msg ue1 h u = elim (Option-cases cu.ue) [
  | inl n ↦ absurd (ground arith)
  | inr (ue, e) ↦
      elim (Run-cases (
        create_ue_context ue (or_not_informed msg.serving_plmn) (or_not_informed msg.masked_imeisv)
          (map allowed_slice msg.allowed_nssai) msg.security_capabilities)) [
            | inl p ↦ absurd (ground (arith, p, e))
            | inr (ue', q) ↦ ground (arith, q, e)
          ]
]

-- The RRC Reconfiguration has the NAS message that is stored with the UE.
pub forwarded :
    (env : Env) (cu : CuCp) (ue : Ue) (du : GnbDu) (socket : ℕ) (group message : Bytes)
    → cu.ue ≡ some ue
    → cu.du ≡ some du
    → du.conn ≡ some socket
    → env.rrc_encode (cell_group ue.master_cell_group) ≡ some group
    → env.rrc_encode (rrc_reconfiguration 2 0 group ue.registration_accept) ≡ some message
    → handle_ue_context_setup_response env cu
      ≡ done (record cu { writes = cu.writes ++ to_du socket message ∷ [] })
unfolding handle_ue_context_setup_response send_f1ap
forwarded env cu ue du socket group message u d c hg hm = ground arith

-- After an Initial Context Setup Request, the DU's answer to the context setup has its NAS message
-- sent to the DU in an RRC Reconfiguration, with the cell group that the UE was admitted with, SRB 2
-- and DRB 0. What is written to the F1AP socket is the RRC message itself, in no F1AP message.
pub accept_forwarded :
    (env : Env) (cu cu1 : CuCp) (msg : ContextSetup) (ue : Ue) (du : GnbDu) (socket : ℕ)
    (group message : Bytes)
    → handle_context_setup cu msg ≡ done cu1
    → cu1.ue ≡ some ue
    → cu1.du ≡ some du
    → du.conn ≡ some socket
    → env.rrc_encode (cell_group ue.master_cell_group) ≡ some group
    → env.rrc_encode (rrc_reconfiguration 2 0 group msg.nas_pdu) ≡ some message
    → handle_ue_context_setup_response env cu1
      ≡ done (record cu1 { writes = cu1.writes ++ to_du socket message ∷ [] })
accept_forwarded env cu cu1 msg ue du socket group message h u d c hg hm =
    forwarded env cu1 ue du socket group message u d c hg (rw (kept cu cu1 msg ue h u) hm)
