-- ===== src/F1Server.antt =====
-- The F1AP server of internal/context/f1_server.go. A listener and a connection are numbers; the calls
-- of the sctp library are those of `Network`, and `Listening` has the two that only a server makes.
use central_unit.Base.{ℕ, not, Option, none, some, ◌==◌, if◌then◌else◌}
use central_unit.Base.Int.{ℤ}
use central_unit.Bytes.{Bytes}
use central_unit.Transport.{Network, ConnectError, subscribe, set_ppid, set_buffer}
use central_unit.Transport.ReadLoop.{ReadResult, end_of_file, again, read_error, message}
use central_unit.Cu.{CuCp}

abbrev pub f1ap_ppid : ℕ
f1ap_ppid = 62

pub record Listening : Type 0 where
  pub resolve_ip : Bytes → Option Bytes
  pub listen : Bytes → ℤ → Option ℕ

-- `cu.F1APListener`; an error is `none`.
unfoldable pub init_f1ap_server : Listening → CuCp → Option ℕ
init_f1ap_server lib cu = elim (lib.resolve_ip cu.control_info.f1_gnb_ip) [
  | none ↦ none
  | some addr ↦ lib.listen addr cu.control_info.f1_gnb_port
]

unfoldable pub configure_f1ap_connection : Network → ℕ → Option ConnectError
configure_f1ap_connection net conn =
    if not (net.subscribe conn)
    then some subscribe
    else if not (net.set_default_sent_param conn 62)
    then some set_ppid
    else if not (net.set_read_buffer conn 8192)
    then some set_buffer
    else none

-- What a call of `AcceptSCTP` delivers.
pub data AcceptResult : Type 0 where
  interrupted accept_error nil_conn : AcceptResult
  accepted : (conn : ℕ) → AcceptResult

-- The connection that one round of the loop hands to `handleF1APConnection`.
unfoldable pub accept_round : Network → AcceptResult → Option ℕ
unfolding configure_f1ap_connection
accept_round net interrupted = none
accept_round net accept_error = none
accept_round net nil_conn = none
accept_round net (accepted conn) = elim (configure_f1ap_connection net conn) [
  | some e ↦ none
  | none ↦ some conn
]

-- What one round of the loop of `handleF1APConnection` does with what it has read.
pub data Round : Type 0 where
  go_on leave : Round
  dispatched : Bytes → Round

unfoldable pub read_round : ReadResult → Round
read_round end_of_file = leave
read_round again = go_on
read_round read_error = leave
read_round (message none payload) = go_on
read_round (message (some ppid) payload) =
    if not (ppid == f1ap_ppid) then go_on else dispatched payload

-- `cu.TempDuConn = conn`
unfoldable pub opened : CuCp → ℕ → CuCp
opened cu conn = record cu { temp_du_conn = some conn }
