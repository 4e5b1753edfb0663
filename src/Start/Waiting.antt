-- ===== src/Start/Waiting.antt =====
-- The context with which the program waits for the NG Setup Response.
use central_unit.Base.{
  ◌≡◌, ◌∙◌, sym, ap, [], ◌∷◌, Option, none, some, if◌then◌else◌, >>=-eq-done, done, must, arith,
}
use central_unit.Base.Int.{ℤ}
use central_unit.Bytes.{Bytes, equal}
use central_unit.Wire.{Env}
use central_unit.Config.{Config}
use central_unit.Transport.{SctpConn, Network, ConnectError, connect}
use central_unit.Amf.{GnbAmf}
use central_unit.Cu.{CuCp, to_amf, emit, get_octets, send_ngap, new_amf, get_ran_amf_id}
use central_unit.Cu.Ngap.{send_ng_setup_request}
use central_unit.Start.{configured, linked, waiting, set_up, init_context}
use central_unit.Start.Panics.{amf_conn, first_amf, init_context_lem}

send_ngap-sends :
    (cu : CuCp) (amf : GnbAmf) (pdu : Bytes) (cu' : CuCp)
    → send_ngap cu amf pdu ≡ done cu'
    → cu' ≡ emit cu (to_amf pdu)
unfolding send_ngap
send_ngap-sends cu amf pdu cu' e = ground arith

-- One message is sent, and nothing else is changed.
setup_request-sends :
    (env : Env) (cu : CuCp) (amf : GnbAmf) (cu' : CuCp)
    → send_ng_setup_request env cu amf ≡ done cu'
    → (w : Bytes) × (cu' ≡ emit cu (to_amf w))
unfolding send_ng_setup_request
setup_request-sends env cu amf cu' e =
    let (plmn, o, sent) = >>=-eq-done (get_octets cu) _ e in (_, send_ngap-sends cu amf _ cu' sent)

pub record IsWaiting (cfg : Config) (cu : CuCp) : Type 0 where
  pub ue : cu.ue ≡ none
  pub du : cu.du ≡ none
  pub amf : cu.amf ≡ some (linked (first_amf cfg))
  pub not_ready : cu.ready_signals ≡ 0
  pub request : (w : Bytes) × (cu.writes ≡ to_amf w ∷ [])

request-IsWaiting :
    (cfg : Config) (cu : CuCp) (w : Bytes)
    → cu ≡ emit (record (configured cfg) { amf = some (linked (first_amf cfg)) }) (to_amf w)
    → IsWaiting cfg cu
unfolding configured new_amf get_ran_amf_id
request-IsWaiting cfg cu w e = record {
  ue = ap (λ (k : CuCp). k.ue) e;
  du = ap (λ (k : CuCp). k.du) e;
  amf = ap (λ (k : CuCp). k.amf) e;
  not_ready = ap (λ (k : CuCp). k.ready_signals) e;
  request = (w, ap (λ (k : CuCp). k.writes) e);
}

set_up-waits :
    (env : Env) (cu : CuCp) (amf : GnbAmf) (p : SctpConn × Option ConnectError) (cu' : CuCp)
    (conn : SctpConn)
    → set_up env cu amf p ≡ done (waiting cu' conn)
    → (p ≡ (conn, none))
      × (send_ng_setup_request env (record cu { amf = some (linked amf) }) (linked amf) ≡ done cu')
set_up-waits env cu amf (c, some e) cu' conn h = ground arith
set_up-waits env cu amf (c, none) cu' conn h =
    let (cu1, q, r) = >>=-eq-done (send_ng_setup_request env _ (linked amf)) _ h in ground arith

-- Where the start comes to its wait, the AMF is connected, one message has been sent, the one to the
-- AMF, and there is no UE, no DU and no signal yet.
pub init_context-waits :
    (decimal : ℤ → Bytes) (net : Network) (env : Env) (cfg : Config) (cu : CuCp) (conn : SctpConn)
    → init_context decimal net env cfg ≡ done (waiting cu conn)
    → IsWaiting cfg cu × (connect net (amf_conn decimal cfg) ≡ (conn, none))
init_context-waits decimal net env cfg cu conn e =
    let lemma = sym (init_context_lem decimal net env cfg) ∙ e in
    let (c, m, n) =
      >>=-eq-done (must (if equal cfg.ngap.gnb_id [] then none else some (amf_conn decimal cfg))) _
        lemma in
    let same : amf_conn decimal cfg ≡ c = ground arith in
    let (p, sent) = set_up-waits env (configured cfg) (first_amf cfg) (connect net c) cu conn n in
    let (w, shape) = setup_request-sends env _ _ cu sent in
    (request-IsWaiting cfg cu w shape, ap (connect net) same ∙ p)
