-- ===== src/Start.antt =====
-- `InitContext` of internal/context/context_init.go with `initAmfConn` of
-- internal/context/handle_amf.go, up to the wait for the NG Setup Response. `Fatal` ends the program.
-- `%d` is the parameter `decimal`; the goroutine that reads
-- NGAP messages is a step of System.antt.
pub mod Panics
pub mod Waiting
use central_unit.Base.{
  ℕ, Bool, true, List, [], ◌∷◌, ◌++◌, Option, none, some, Run, done, panic, must, ◌>>=◌,
}
use central_unit.Base.Int.{ℤ}
use central_unit.Bytes.{Bytes}
use central_unit.Wire.{Env}
use central_unit.Config.{Config}
use central_unit.Config as Settings
use central_unit.Transport.{SctpConn, Network, ConnectError, new_sctp_conn, connect}
use central_unit.Amf.{GnbAmf, Slice}
use central_unit.Cu.{CuCp, new_amf, set_slice_info_from_config}
use central_unit.Cu.Ngap.{send_ng_setup_request}

-- The fields that the configuration sets, and the zero of every other field.
abbrev blank : Config → CuCp
blank cfg = record {
  control_info = record {
    mcc = cfg.cucp.plmn.mcc;
    mnc = cfg.cucp.plmn.mnc;
    tac = cfg.cucp.tac;
    ng_gnb_id = cfg.ngap.gnb_id;
    ng_gnb_ip = cfg.ngap.local_address;
    ng_gnb_port = cfg.ngap.local_port;
    f1_gnb_id = cfg.cucp.node_id;
    f1_gnb_ip = cfg.f1ap.local_address;
    f1_gnb_port = cfg.f1ap.local_port;
  };
  slice_info = record { sst = []; sd = [] };
  ue = none;
  amf = none;
  du = none;
  du_pool = [];
  temp_du_conn = none;
  id_amf_generator = 0;
  id_rrc_ue_generator = 0;
  ready_signals = 0;
  writes = [];
}

-- Only the first slice counts, and only the slice information is set.
first_slice : CuCp → List Settings.Slice → Slice
first_slice cu [] = cu.slice_info
first_slice cu (s ∷ _) = (set_slice_info_from_config cu s.sst s.sd).slice_info

unfoldable pub configured : Config → CuCp
unfolding first_slice
configured cfg =
    let cu = blank cfg in
    new_amf (record cu { slice_info = first_slice cu cfg.cucp.slices }) cfg.ngap.amf_address
      cfg.ngap.amf_port

-- `fmt.Sprintf("%s:%d", ip, port)`
abbrev pub endpoint : (ℤ → Bytes) → Bytes → ℤ → Bytes
endpoint decimal ip port = ip ++ b':' ∷ decimal port

-- `amf.Tnla.SctpConn = conn`
abbrev pub linked : GnbAmf → GnbAmf
linked amf = record amf { connected = true }

pub data Outset : Type 0 where
  waiting : CuCp → SctpConn → Outset
  exited : ConnectError → Outset

-- A nil connection is dereferenced by `Connect`.
unfoldable pub init_amf_conn :
    (ℤ → Bytes) → Network → CuCp → GnbAmf → Run (SctpConn × Option ConnectError)
init_amf_conn decimal net cu amf =
    let remote = endpoint decimal amf.ip amf.port in
    let local = endpoint decimal cu.control_info.ng_gnb_ip cu.control_info.ng_gnb_port in
    must (new_sctp_conn cu.control_info.ng_gnb_id local remote) >>= λ conn. done (connect net conn)

abbrev pub set_up : Env → CuCp → GnbAmf → SctpConn × Option ConnectError → Run Outset
set_up env cu amf (conn, some e) = done (exited e)
set_up env cu amf (conn, none) =
    send_ng_setup_request env (record cu { amf = some (linked amf) }) (linked amf) >>= λ cu'.
    done (waiting cu' conn)

unfoldable pub init_context : (ℤ → Bytes) → Network → Env → Config → Run Outset
unfolding init_amf_conn
init_context decimal net env cfg =
    let cu = configured cfg in
    must cu.amf >>= λ amf. init_amf_conn decimal net cu amf >>= set_up env cu amf
