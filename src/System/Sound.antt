-- ===== src/System/Sound.antt =====
-- The context in every state of a run in which no two handlers overlap.
use central_unit.Base.{ℕ, ◌≡◌, refl, done}
use central_unit.Bytes.{Bytes}
use central_unit.Wire.{Env}
use central_unit.Base.Int.{ℤ}
use central_unit.Config.{Config}
use central_unit.Start.{waiting, init_context}
use central_unit.Start.Waiting.{IsWaiting, init_context-waits}
use central_unit.Transport.{Network, SctpConn}
use central_unit.F1Server.{Listening, opened}
use central_unit.Cu.{CuCp}
use central_unit.Cu.F1.{dispatch_f1}
use central_unit.Cu.Ngap.{dispatch}
use central_unit.Cu.Safety.{IsSound, Holds-done}
use central_unit.Cu.Safety.F1.{dispatch_f1-IsSound}
use central_unit.Cu.Safety.Ngap.{dispatch-IsSound}
use central_unit.System.{
  System, SerialStep, read_loop, cancel, receive, ng_task, serve, accept, f1_read, f1_skip, f1_end,
  f1_task, SerialRun, here, next,
}

opened-IsSound : (cu : CuCp) (conn : ℕ) → IsSound cu → IsSound (opened cu conn)
unfolding opened
opened-IsSound cu conn h = record { ue_ok = h.ue_ok; amf_ok = h.amf_ok; du_ok = h.du_ok }

module _ (env : Env) (net : Network) (lib : Listening) where
  step-IsSound : {s t : System} → SerialStep env net lib s t → IsSound s.cu → IsSound t.cu
  step-IsSound (read_loop _) h = h
  step-IsSound cancel h = h
  step-IsSound (receive _ _ _) h = h
  step-IsSound {s} (ng_task raw _ _ _ _ e) h =
      Holds-done IsSound (dispatch env s.cu raw) (dispatch-IsSound env s.cu h raw) e
  step-IsSound (serve _ _ _ _) h = h
  step-IsSound {s} (accept _ conn a _ _) h = opened-IsSound s.cu conn h
  step-IsSound (f1_read _ _ _ _ _ _ _) h = h
  step-IsSound (f1_skip _ _ _ _ _ _) h = h
  step-IsSound (f1_end _ _ _ _ _ _) h = h
  step-IsSound {s} (f1_task raw _ _ _ _ e) h =
      Holds-done IsSound (dispatch_f1 env s.cu raw) (dispatch_f1-IsSound env s.cu h raw) e

  SerialRun-IsSound :
      {cu : CuCp} {s : System} → IsSound cu → SerialRun env net lib cu s → IsSound s.cu
  SerialRun-IsSound h here = h
  SerialRun-IsSound h (next r s) = step-IsSound s (SerialRun-IsSound h r)

linked-IsSound : (cfg : Config) (cu : CuCp) → IsWaiting cfg cu → IsSound cu
linked-IsSound cfg cu w = record {
  ue_ok = rw w.ue tt;
  amf_ok = rw w.amf (record { plmns_counted = refl; slices_counted = refl });
  du_ok = rw w.du tt;
}

-- In runs in which no two handlers overlap: whatever the configuration, and whatever the AMF and the DUs
-- send, in any order of the reads and of the goroutines, in every state after the wait for the
-- AMF has begun, the UE is not down and has the RAN identifier 1, the counters of the AMF equal the
-- lengths of its lists, and a DU is active with exactly one cell.
pub running-IsSound :
    (decimal : ℤ → Bytes) (net : Network) (lib : Listening) (env : Env) (cfg : Config) (cu : CuCp)
    (conn : SctpConn) (s : System)
    → init_context decimal net env cfg ≡ done (waiting cu conn)
    → SerialRun env net lib cu s
    → IsSound s.cu
running-IsSound decimal net lib env cfg cu conn s e r =
    let w = (init_context-waits decimal net env cfg cu conn e).0 in
    SerialRun-IsSound env net lib (linked-IsSound cfg cu w) r
