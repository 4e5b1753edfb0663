-- ===== src/Cu/Safety/Rrc.antt =====
-- The RRC procedures keep a context sound.
use central_unit.Base.{ℕ, Option, none, some, must, [], ◌∷◌, arith}
use central_unit.Bytes.{Bytes}
use central_unit.Asn1.{BitString}
use central_unit.Wire.{
  Env, InitialUeIdentity, RrcSetupRequest, InitialUlRrc, SetupCompleteIes, TmsiValue,
}
use central_unit.Ue.{Ue, UeState, initialized, ongoing, down}
use central_unit.Du.{GnbDu}
use central_unit.Amf.{GnbAmf}
use central_unit.Cu.{CuCp, Status, ok, failed, send_ngap, send_f1ap, create_ue, get_octets}
use central_unit.Cu.Rrc.{
  send_encoded, send_nas_in, send_nas_pdu, accept_setup, identity_bits, with_part1,
  handle_rrc_setup_request, tmsi_bytes, take_tmsi, learn_tmsi, register, handle_rrc_setup_complete,
  handle_ul_information_transfer, handle_security_mode_complete,
  handle_rrc_reconfiguration_complete, store,
}
use central_unit.Cu.Safety.{IsSound, Holds, Holds-seq, Holds-bind, UeOk}

pub send_ngap-IsSound :
    (cu : CuCp) (amf : GnbAmf) (pdu : Bytes) → IsSound cu → Holds IsSound (send_ngap cu amf pdu)
unfolding send_ngap
send_ngap-IsSound cu amf pdu h = ground arith

pub send_f1ap-IsSound :
    (env : Env) (cu : CuCp) (du : GnbDu) (pdu : Bytes)
    → IsSound cu
    → IsSound (send_f1ap env cu du pdu).0
unfolding send_f1ap
send_f1ap-IsSound env cu du pdu h = ground arith

store-IsSound : (cu : CuCp) (ue : Ue) → IsSound cu → UeOk (some ue) → IsSound (store cu ue)
store-IsSound cu ue h k = ground arith

send_encoded-IsSound :
    (cu : CuCp) (amf : GnbAmf) (buf : Option Bytes)
    → IsSound cu
    → Holds IsSound (send_encoded cu amf buf)
unfolding send_encoded
send_encoded-IsSound cu amf none h = h
send_encoded-IsSound cu amf (some buf) h = send_ngap-IsSound cu amf buf h

send_nas_in-IsSound :
    (env : Env) (cu : CuCp) (nas : Bytes) (ue : Ue) (amf : GnbAmf)
    → IsSound cu
    → UeOk (some ue)
    → (st : UeState) → Holds IsSound (send_nas_in env cu nas ue amf st)
unfolding send_nas_in
send_nas_in-IsSound env cu nas ue amf h k initialized =
    send_encoded-IsSound _ amf _ (store-IsSound cu (record ue { state = ongoing }) h (ground arith))
send_nas_in-IsSound env cu nas ue amf h k down =
    send_ngap-IsSound (store cu ue) amf [] (store-IsSound cu ue h k)
send_nas_in-IsSound env cu nas ue amf h k _ =
    send_encoded-IsSound (store cu ue) amf _ (store-IsSound cu ue h k)

send_nas_pdu-IsSound :
    (env : Env) (cu : CuCp) (nas : Bytes) (ue : Ue) (amf : GnbAmf)
    → IsSound cu
    → UeOk (some ue)
    → Holds IsSound (send_nas_pdu env cu nas ue amf)
send_nas_pdu-IsSound env cu nas ue amf h k =
    unfold send_nas_pdu in send_nas_in-IsSound env cu nas ue amf h k ue.state

accept_setup-IsSound :
    (env : Env) (cu : CuCp) (du : GnbDu) (ue : Ue) (req : RrcSetupRequest) (msg : InitialUlRrc)
    → IsSound cu
    → UeOk (some ue)
    → IsSound (accept_setup env cu du ue req msg).0
unfolding accept_setup send_f1ap
accept_setup-IsSound env cu du ue req msg h k = ground arith

with_part1-UeOk : (i : InitialUeIdentity) (ue : Ue) → UeOk (some ue) → UeOk (some (with_part1 i ue))
unfolding with_part1
with_part1-UeOk i ue h = ground arith

create_ue-IsSound :
    (cu : CuCp) (du_id crnti : ℕ) (identity : BitString) (du_ue_id : ℕ)
    → IsSound cu
    → Holds (λ r. IsSound r.0 × UeOk (some r.1)) (create_ue cu du_id crnti identity du_ue_id)
unfolding create_ue
create_ue-IsSound cu du_id crnti identity du_ue_id h = ground arith

abbrev pub SoundPair : CuCp × Status → Type 0
SoundPair r = IsSound r.0

pub handle_rrc_setup_request-IsSound :
    (env : Env) (cu : CuCp) (du? : Option GnbDu) (req : RrcSetupRequest) (msg : InitialUlRrc)
    → IsSound cu
    → Holds SoundPair (handle_rrc_setup_request env cu du? req msg)
unfolding handle_rrc_setup_request
handle_rrc_setup_request-IsSound env cu none req msg h = tt
handle_rrc_setup_request-IsSound env cu (some du) req msg h =
    Holds-seq (λ r. IsSound r.0 × UeOk (some r.1)) SoundPair _ _
      (create_ue-IsSound cu du.du_id msg.c_rnti (identity_bits req.ue_identity) msg.gnb_du_ue_id h)
      λ r k.
        let ue = with_part1 req.ue_identity r.1 in
        let ok_ue = with_part1-UeOk req.ue_identity r.1 k.1 in
        let sound = store-IsSound r.0 ue k.0 ok_ue in
        ground (arith, accept_setup-IsSound env (store r.0 ue) du ue req msg sound ok_ue)

take_tmsi-UeOk : (ue : Ue) (b : Bytes) → UeOk (some ue) → UeOk (some (take_tmsi ue b).0)
take_tmsi-UeOk ue [] h = h
take_tmsi-UeOk ue (b ∷ bs) h = ground arith

learn_tmsi-UeOk :
    (ue : Ue) (v : Option TmsiValue)
    → UeOk (some ue)
    → Holds (λ r. UeOk (some r.0)) (learn_tmsi ue v)
unfolding learn_tmsi
learn_tmsi-UeOk ue none h = h
learn_tmsi-UeOk ue (some v) h =
    Holds-bind (λ r. UeOk (some r.0)) (tmsi_bytes ue v) _ λ b. take_tmsi-UeOk ue b h

register-IsSound :
    (env : Env) (cu : CuCp) (nas : Bytes) (ue : Ue) (st : Status)
    → IsSound cu
    → UeOk (some ue)
    → Holds SoundPair (register env cu nas ue st)
unfolding register
register-IsSound env cu nas ue failed h k = store-IsSound cu ue h k
register-IsSound env cu nas ue ok h k = Holds-bind SoundPair (must cu.amf) _ λ amf.
    Holds-seq IsSound SoundPair (send_nas_pdu env cu nas (record ue { state = initialized }) amf) _
      (send_nas_pdu-IsSound env cu nas (record ue { state = initialized }) amf h (ground arith))
      λ cu' s. s

pub handle_rrc_setup_complete-IsSound :
    (env : Env) (cu : CuCp) (ue : Ue) (msg : Option SetupCompleteIes)
    → IsSound cu
    → UeOk (some ue)
    → Holds SoundPair (handle_rrc_setup_complete env cu ue msg)
unfolding handle_rrc_setup_complete
handle_rrc_setup_complete-IsSound env cu ue msg h k = Holds-bind SoundPair (must msg) _ λ ies.
    Holds-seq (λ r. UeOk (some r.0)) SoundPair (learn_tmsi ue ies.tmsi_value) _
      (learn_tmsi-UeOk ue ies.tmsi_value k)
      λ r k'. register-IsSound env cu ies.dedicated_nas r.0 r.1 h k'

pub handle_ul_information_transfer-IsSound :
    (env : Env) (cu : CuCp) (ue : Ue) (msg : Option Bytes)
    → IsSound cu
    → UeOk (some ue)
    → Holds SoundPair (handle_ul_information_transfer env cu ue msg)
unfolding handle_ul_information_transfer
handle_ul_information_transfer-IsSound env cu ue msg h k = Holds-bind SoundPair (must msg) _ λ nas.
    Holds-bind SoundPair (must cu.amf) _ λ amf.
      Holds-seq IsSound SoundPair (send_nas_pdu env cu nas (record ue { state = ongoing }) amf) _
        (send_nas_pdu-IsSound env cu nas (record ue { state = ongoing }) amf h (ground arith))
        λ cu' s. s

pub handle_security_mode_complete-IsSound :
    (env : Env) (cu : CuCp) (ue : Ue)
    → IsSound cu
    → Holds SoundPair (handle_security_mode_complete env cu ue)
unfolding handle_security_mode_complete send_f1ap
handle_security_mode_complete-IsSound env cu ue h =
    Holds-bind SoundPair (get_octets cu) _
      λ plmn. Holds-bind SoundPair (must ue.nr_cell_id) _ λ cell. ground arith

pub handle_rrc_reconfiguration_complete-IsSound :
    (env : Env) (cu : CuCp) (ue : Ue)
    → IsSound cu
    → UeOk (some ue)
    → Holds SoundPair (handle_rrc_reconfiguration_complete env cu ue)
unfolding handle_rrc_reconfiguration_complete send_ngap
handle_rrc_reconfiguration_complete-IsSound env cu ue h k = ground arith
