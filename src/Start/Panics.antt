-- ===== src/Start/Panics.antt =====
-- Which complete configurations make the start of the program panic.
use central_unit.Base.{
  ◌≡◌, ◌≢◌, refl, ◌↔◌, ◌⊎◌, true, false, [], ◌∷◌, ◌++◌, length, Option, none, some, if◌then◌else◌,
  Run, >>=-eq-panic, done, panic, must, ◌>>=◌, arith,
}
use central_unit.Base.Int.{ℤ}
use central_unit.Bytes.{Bytes, equal}
use central_unit.Bytes.Laws.{equal_iff}
use central_unit.Wire.{Env}
use central_unit.Config.{Config}
use central_unit.Config.Validate.{IsComplete}
use central_unit.Transport.{SctpConn, Network, ConnectError, new_sctp_conn, connect}
use central_unit.Plmn.{get_mcc_and_mnc_in_octets}
use central_unit.Plmn.Length.{octets_panic_iff}
use central_unit.Amf.{GnbAmf, inactive}
use central_unit.Asn1.{no_bits}
use central_unit.Cu.{CuCp, new_amf, get_octets, send_ngap, get_ran_amf_id}
use central_unit.Cu.Ngap.{send_ng_setup_request}
use central_unit.Start.{waiting, configured, endpoint, linked, init_amf_conn, set_up, init_context}

-- The connection to the AMF that the configuration asks for.
abbrev pub amf_conn : (ℤ → Bytes) → Config → SctpConn
amf_conn decimal cfg = record {
  gnb_id = cfg.ngap.gnb_id;
  local_addr = endpoint decimal cfg.ngap.local_address cfg.ngap.local_port;
  remote_addr = endpoint decimal cfg.ngap.amf_address cfg.ngap.amf_port;
  conn = none;
  read_loops = 0;
}

endpoint-given : (ip : Bytes) (port : Bytes) → equal (ip ++ b':' ∷ port) [] ≡ false
unfolding equal
endpoint-given [] port = refl
endpoint-given (x ∷ ip) port = refl

new_sctp_conn-cases :
    (decimal : ℤ → Bytes) (cfg : Config)
    → new_sctp_conn cfg.ngap.gnb_id
        (endpoint decimal cfg.ngap.local_address cfg.ngap.local_port)
        (endpoint decimal cfg.ngap.amf_address cfg.ngap.amf_port)
      ≡ (if equal cfg.ngap.gnb_id [] then none else some (amf_conn decimal cfg))
unfolding new_sctp_conn
new_sctp_conn-cases decimal cfg =
    rw
      (
        endpoint-given cfg.ngap.local_address (decimal cfg.ngap.local_port),
        endpoint-given cfg.ngap.amf_address (decimal cfg.ngap.amf_port),
      )
      (ground arith)

-- The setup request panics exactly where the PLMN cannot be encoded.
setup_request_panic :
    (env : Env) (cu : CuCp) (amf : GnbAmf)
    → amf.connected ≡ true
    → (send_ng_setup_request env cu amf ≡ panic) ↔ (get_octets cu ≡ panic)
unfolding send_ng_setup_request send_ngap
setup_request_panic env cu amf h = ground arith

-- The AMF as it is before the connection.
abbrev pub first_amf : Config → GnbAmf
first_amf cfg = record {
  ip = cfg.ngap.amf_address;
  port = cfg.ngap.amf_port;
  amf_id = 0;
  connected = false;
  capacity = 0;
  state = inactive;
  name = [];
  region_id = no_bits;
  set_id = no_bits;
  pointer = no_bits;
  plmns = [];
  slices = [];
  len_slice = 0;
  len_plmn = 0;
}

must_then :
    {A B C : Type 0} (o : Option A) (f : A → B) (k : B → Run C)
    → ((must o >>= λ a. done (f a)) >>= k) ≡ (must o >>= λ a. k (f a))
must_then none f k = refl
must_then (some a) f k = refl

-- The start, once the test of `NewSctpConn` is reduced to that of the identifier.
pub init_context_lem :
    (decimal : ℤ → Bytes) (net : Network) (env : Env) (cfg : Config)
    → init_context decimal net env cfg ≡ (
        must (if equal cfg.ngap.gnb_id [] then none else some (amf_conn decimal cfg)) >>= λ conn.
        set_up env (configured cfg) (first_amf cfg) (connect net conn))
unfolding init_context init_amf_conn configured new_amf get_ran_amf_id
init_context_lem decimal net env cfg =
    rw (new_sctp_conn-cases decimal cfg)
      (must_then _ (connect net) (set_up env (configured cfg) (first_amf cfg)))

octets_lem :
    (cfg : Config) (amf : GnbAmf)
    → get_octets (record (configured cfg) { amf = some amf })
      ≡ get_mcc_and_mnc_in_octets cfg.cucp.plmn.mcc cfg.cucp.plmn.mnc
unfolding get_octets configured new_amf get_ran_amf_id
octets_lem cfg amf = refl

set_up_panic :
    (env : Env) (cfg : Config) (amf : GnbAmf) (p : SctpConn × Option ConnectError)
    → IsComplete cfg
    → (set_up env (configured cfg) amf p ≡ panic) ↔ ((p.1 ≡ none) × (length cfg.cucp.plmn.mnc ≡ 1))
set_up_panic env cfg amf (conn, some e) h = ground arith
set_up_panic env cfg amf (conn, none) h =
    let cu = record (configured cfg) { amf = some (linked amf) } in
    let request = send_ng_setup_request env cu (linked amf) in
    let back : request ≡ panic → (request >>= λ cu'. done (waiting cu' conn)) ≡ panic =
      λ e. rw e refl in
    ground (
      arith,
      >>=-eq-panic request (λ cu'. waiting cu' conn),
      back,
      setup_request_panic env cu (linked amf) refl,
      octets_lem cfg (linked amf),
      octets_panic_iff cfg.cucp.plmn.mcc cfg.cucp.plmn.mnc,
      h.plmn.mcc,
      h.plmn.mnc,
    )

-- With a complete configuration, the start panics exactly where there is no `gnb_id`, which the
-- validation does not ask for, or where the AMF can be reached and the MNC has one digit only, which
-- the validation lets pass.
pub init_context_panic_iff :
    (decimal : ℤ → Bytes) (net : Network) (env : Env) (cfg : Config)
    → IsComplete cfg
    → (init_context decimal net env cfg ≡ panic) ↔ (
        (cfg.ngap.gnb_id ≡ [])
        ⊎ ((cfg.ngap.gnb_id ≢ [])
            × ((connect net (amf_conn decimal cfg)).1 ≡ none)
            × (length cfg.cucp.plmn.mnc ≡ 1)))
init_context_panic_iff decimal net env cfg h = ground (
  arith,
  init_context_lem decimal net env cfg,
  equal_iff cfg.ngap.gnb_id [],
  set_up_panic env cfg (first_amf cfg) (connect net (amf_conn decimal cfg)) h,
)
