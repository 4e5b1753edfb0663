-- ===== src/Lib.antt =====
-- The CU-CP of a 5G base station: it ends F1AP towards a distributed unit (DU), NGAP towards the
-- core's AMF and RRC towards the phone (UE), and keeps one context of each. A message of the DU or
-- the AMF is decoded, dispatched to a handler, changes the contexts, and may be answered on either
-- side. Every Go function is a function of the context; `Run` is its result or a panic, an error
-- that is returned is a value, and each write to a socket is an entry of the field `writes`.
--
-- The files and the code that they model:
--   Base, Bytes: lists, bits and bytes; what the code uses of encoding/binary, encoding/hex and fmt.
--   Sqn: internal/context/uecontext/sqn.go.
--   Milenage, Kdf, Auth: milenage.go, ueauth.go and auth.go of internal/context/uecontext;
--     Milenage/Standard is the definition of TS 35.206 that they are measured by.
--   SecCtx: internal/context/uecontext/secctx.go.
--   Config: pkg/config/config.go, and the first half of `New` in internal/app/app.go.
--   Logger: internal/common/logger/logger.go.
--   Plmn: GetMccAndMncInOctets (internal/context/context_cucp.go), ConvertMccMnc
--     (internal/context/amfcontext/amfcontext.go) and plmnMatches (internal/context/handle_du.go).
--   Asn1: internal/common/utils/asn1.go, and extractCellIDValue and cellIDsMatch (handle_du.go).
--   Amf: internal/context/amfcontext/amfcontext.go, whose two linked lists are lists with a cursor;
--     Amf/Race: AddedPlmn statement by statement, in two goroutines at once.
--   Fsm: internal/common/fsm (fsm.go, state.go, event.go); Fsm/Pool: SendEvent and SyncSendEvent
--     called by many goroutines on one state object.
--   Wire: the messages, as the handlers read and fill them, and the message libraries (`Env`).
--   Ue, Du: internal/context/uecontext/uecontext.go and internal/context/du/ducontext.go.
--   Cu: internal/context/context_cucp.go and handle_ue.go; SendNgap and SendF1ap.
--   Cu/Rrc: internal/context/protocol_rrc.go, with the NAS transport of protocol_ngap.go.
--   Cu/F1: dispatchF1 (internal/context/handle_du.go) and internal/context/protocol_f1c.go.
--   Cu/Ngap: internal/context/handle_amf.go and SendNgSetupRequest (protocol_ngap.go).
--   Cu/Safety: what every message preserves; Cu/Attach: what single procedures do.
--   Transport: internal/transport/sctpclient.go, with the read loop (ReadLoop) and, beside it, Close;
--     F1Server: internal/context/f1_server.go.
--   Start: InitContext (internal/context/context_init.go) and initAmfConn (handle_amf.go).
--   System: the running program, in which the read loops, the F1AP server and the goroutines that
--     handle the messages take their steps in any order, in the runs in which no two handlers overlap.
--   Command: cmd/main.go up to the wait for the AMF, with New and Start of internal/app/app.go.
--   Shutdown: the rest of cmd/main.go, Stop (internal/app/app.go), Terminate
--     (internal/context/context_cucp.go) and the goroutine of InitContext, as threads of one process.
--   Examples: the theorems at concrete inputs.
--
-- Conventions. Integers are natural numbers, with `% 2 ^ w` where the code may wrap; a string is the
-- list of its bytes, a chain of pointers a list, nil `none`. The F1AP, NGAP, RRC and SCTP libraries
-- are a parameter, `Env`: decoders and encoders that may fail, constants, and the success of a write.
-- Parameters too are the block cipher, the random reader and HMAC-SHA256 (`Crypto`, `Hmac`), the NAS
-- contexts and sec5g (`NasLib`, `Sec5g`), the sockets (`Network`, `Listening`), the file system and
-- the YAML decoder (`Disk`), the log levels (`LevelLib`), and the decimal digits of `%d`. No law of
-- any of them is assumed, but that a read on a closed socket fails (Transport/Close). The
-- goroutines that handle messages share the contexts with no lock. System has the runs in which a
-- handler that has started ends before another changes the context; of the runs in which handlers
-- overlap only those of two calls of AddedPlmn are modelled, in Amf/Race.
-- The one loop with fuel is `process_next` of Fsm, whose callbacks may set a next event for ever;
-- Fsm/Halt says how much is enough. The read loop of the SCTP client, the closures of the state
-- machine and the goroutines at the end of the program are step relations with no bound on their
-- steps; their schedulers are arbitrary.
--
-- Not modelled: what the sockets do, and the writes to the log. The worker pool of the state machine
-- is not of this repository: that it runs each closure is all that is used of it. The decoder of
-- internal/context/du/handlers.go copies the fields of the library's PDU, and is part of `Env`;
-- internal/transport/sctpserver.go is a comment, and the types of pkg/model are those of the fields
-- that hold them.
pub mod Base
pub mod Bytes
pub mod Sqn
pub mod Milenage
pub mod Kdf
pub mod Logger
pub mod Auth
pub mod SecCtx
pub mod Config
pub mod Transport
pub mod Start
pub mod Shutdown
pub mod F1Server
pub mod Command
pub mod System
pub mod Plmn
pub mod Amf
pub mod Fsm
pub mod Asn1
pub mod Wire
pub mod Ue
pub mod Du
pub mod Cu
pub mod Examples
