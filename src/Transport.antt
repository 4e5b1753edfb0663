-- ===== src/Transport.antt =====
-- The SCTP client of internal/transport/sctpclient.go, up to its read loop. The library
-- github.com/ishidawataru/sctp is the parameter `Network`: each call answers with its result, or with
-- none where it has an error. A socket is a number. `Send` is a part of `send_ngap` (Cu.antt).
pub mod ReadLoop
pub mod Close
use central_unit.Base.{
  ℕ, ◌+◌, Bool, true, false, ◌||◌, not, List, [], ◌∷◌, Option, none, some, if◌then◌else◌,
}
use central_unit.Bytes.{Bytes, equal}

abbrev pub ngap_ppid : ℕ
ngap_ppid = 60

abbrev read_buffer_size : ℕ
read_buffer_size = 8192

abbrev pub default_channel_buffer : ℕ
default_channel_buffer = 5000

-- `read_loops` counts the goroutines that `Connect` has started.
pub record SctpConn : Type 0 where
  pub gnb_id : Bytes
  pub local_addr : Bytes
  pub remote_addr : Bytes
  pub conn : Option ℕ
  pub read_loops : ℕ

pub record Network : Type 0 where
  pub resolve : Bytes → Option Bytes
  pub dial : Option Bytes → Bytes → Option ℕ
  pub subscribe : ℕ → Bool
  pub set_default_sent_param : ℕ → (ppid : ℕ) → Bool
  pub set_read_buffer : ℕ → (size : ℕ) → Bool
  pub close : ℕ → Bool

pub data ConnectError : Type 0 where
  resolve_local resolve_remote dial subscribe set_ppid set_buffer : ConnectError

-- A nil connection is `none`.
unfoldable pub new_sctp_conn : Bytes → Bytes → Bytes → Option SctpConn
unfolding equal
new_sctp_conn gnbid local remote =
    if equal gnbid [] || equal local [] || equal remote []
    then none
    else some (record {
      gnb_id = gnbid;
      local_addr = local;
      remote_addr = remote;
      conn = none;
      read_loops = 0;
    })

-- The local address is resolved only where there is one.
abbrev pub local_of : Network → Bytes → Option (Option Bytes)
local_of net [] = some none
local_of net (b ∷ addr) = elim (net.resolve (b ∷ addr)) [ none ↦ none | some a ↦ some (some a) ]

configure : Network → SctpConn → ℕ → SctpConn × Option ConnectError
configure net sc s =
    if not (net.subscribe s)
    then (sc, some subscribe)
    else if not (net.set_default_sent_param s ngap_ppid)
    then (sc, some set_ppid)
    else if not (net.set_read_buffer s read_buffer_size)
    then (sc, some set_buffer)
    else (record sc { read_loops = sc.read_loops + 1 }, none)

unfoldable pub connect : Network → SctpConn → SctpConn × Option ConnectError
unfolding configure
connect net sc = elim (local_of net sc.local_addr) [
  | none ↦ (sc, some resolve_local)
  | some laddr ↦ elim (net.resolve sc.remote_addr) [
    | none ↦ (sc, some resolve_remote)
    | some raddr ↦ elim (net.dial laddr raddr) [
      | none ↦ (record sc { conn = none }, some dial)
      | some s ↦ configure net (record sc { conn = some s }) s
    ]
  ]
]

-- Whether the error is nil. The wait for the read loop, which follows a close without an error, is the
-- last place of Transport/ReadLoop.
unfoldable pub close_conn : Network → SctpConn → Bool
close_conn net sc = elim sc.conn [ none ↦ true | some s ↦ net.close s ]
