-- ===== src/System.antt =====
-- The running program: the context, the NGAP read loop, the F1AP server and the goroutines, each of
-- which handles one message. These are the runs in which no two handlers overlap: the handlers start
-- in any order, and each runs to its end before another changes the context. The program does not
-- see to that, since it takes no lock around a handler; Amf/Race has what an overlap may do.
-- `ng_handled` and `f1_handled` are a history that the source does not keep. The steps are those of
-- `initAmfConn`, `InitContext`, `f1apAcceptLoop` and `handleF1APConnection`.
pub mod Sound
pub mod Ready
use central_unit.Base.{
  ℕ, ◌≤◌, ◌≡◌, Bool, true, false, List, [], ◌∷◌, ◌++◌, Option, none, some, done,
}
use central_unit.Bytes.{Bytes}
use central_unit.Wire.{Env}
use central_unit.Transport.{Network}
use central_unit.Transport.ReadLoop
use central_unit.Transport.ReadLoop.{Client, ReadResult}
use central_unit.F1Server.{
  Listening, init_f1ap_server, AcceptResult, accept_round, read_round, go_on, leave, dispatched,
  opened,
}
use central_unit.Cu.{CuCp}
use central_unit.Cu.F1.{dispatch_f1}
use central_unit.Cu.Ngap.{dispatch}

-- `listener` is none before the server is started; `f1_open` counts the open F1AP connections.
pub record System : Type 0 where
  pub cu : CuCp
  pub n2 : Client
  pub ng_tasks : List Bytes
  pub f1_tasks : List Bytes
  pub listener : Option ℕ
  pub f1_open : List ℕ
  pub ng_handled : List Bytes
  pub f1_handled : List Bytes

-- The program as `InitContext` leaves it at its wait for `IsReadyNgap`.
abbrev pub launched : CuCp → System
launched cu = record {
  cu = cu;
  n2 = ReadLoop.started;
  ng_tasks = [];
  f1_tasks = [];
  listener = none;
  f1_open = [];
  ng_handled = [];
  f1_handled = [];
}

module _ (env : Env) (net : Network) (lib : Listening) where
  pub data SerialStep (s : System) : System → Type 0 where
    read_loop : {n2 : Client} → ReadLoop.LoopStep s.n2 n2 → SerialStep s (record s { n2 = n2 })
    cancel : SerialStep s (record s { n2 = record s.n2 { cancelled = true } })
    -- `for rawMsg := range cu.ControlInfo.n2.Read() { go cu.dispatch(amf, rawMsg) }`
    receive :
        (raw : Bytes) (rest : List Bytes)
        → s.n2.queue ≡ raw ∷ rest
        → SerialStep s (record s {
          n2 = record s.n2 { queue = rest; taken = s.n2.taken ++ raw ∷ [] };
          ng_tasks = s.ng_tasks ++ raw ∷ [];
        })
    ng_task :
        (raw : Bytes) (before after : List Bytes) (cu : CuCp)
        → s.ng_tasks ≡ before ++ raw ∷ after
        → dispatch env s.cu raw ≡ done cu
        → SerialStep s (record s {
          cu = cu;
          ng_tasks = before ++ after;
          ng_handled = s.ng_handled ++ raw ∷ [];
        })
    -- `<-cuCtx.IsReadyNgap`, then the server
    serve :
        (listener : ℕ)
        → s.listener ≡ none
        → 1 ≤ s.cu.ready_signals
        → init_f1ap_server lib s.cu ≡ some listener
        → SerialStep s (record s { listener = some listener })
    accept :
        (listener conn : ℕ) (a : AcceptResult)
        → s.listener ≡ some listener
        → accept_round net a ≡ some conn
        → SerialStep s (record s { cu = opened s.cu conn; f1_open = s.f1_open ++ conn ∷ [] })
    f1_read :
        (conn : ℕ) (before after : List ℕ) (raw : Bytes) (r : ReadResult)
        → s.f1_open ≡ before ++ conn ∷ after
        → read_round r ≡ dispatched raw
        → SerialStep s (record s { f1_tasks = s.f1_tasks ++ raw ∷ [] })
    f1_skip :
        (conn : ℕ) (before after : List ℕ) (r : ReadResult)
        → s.f1_open ≡ before ++ conn ∷ after
        → read_round r ≡ go_on
        → SerialStep s s
    f1_end :
        (conn : ℕ) (before after : List ℕ) (r : ReadResult)
        → s.f1_open ≡ before ++ conn ∷ after
        → read_round r ≡ leave
        → SerialStep s (record s { f1_open = before ++ after })
    f1_task :
        (raw : Bytes) (before after : List Bytes) (cu : CuCp)
        → s.f1_tasks ≡ before ++ raw ∷ after
        → dispatch_f1 env s.cu raw ≡ done cu
        → SerialStep s (record s {
          cu = cu;
          f1_tasks = before ++ after;
          f1_handled = s.f1_handled ++ raw ∷ [];
        })

  pub data SerialRun (cu : CuCp) : System → Type 0 where
    here : SerialRun cu (launched cu)
    next : {s t : System} → SerialRun cu s → SerialStep s t → SerialRun cu t
