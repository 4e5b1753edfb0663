-- ===== src/Shutdown.antt =====
-- The end of the program: the rest of `main` and `waitForShutdown` of cmd/main.go, `Start` and `Stop`
-- of internal/app/app.go, the goroutine of `InitContext` in internal/context/context_init.go, and
-- `Terminate` of internal/context/context_cucp.go. Three goroutines take part; the scheduler picks
-- one at a time. The other goroutines come in by the channel operations they could take part in,
-- and by a panic that ends the program.
pub mod Terminated
pub mod Signals
use central_unit.Base.{
  ℕ, ◌-◌, ◌≡◌, Bool, true, false, ◌||◌, List, [], ◌∷◌, Option, none, some, ◌==◌, if◌then◌else◌,
}

-- The lines that are printed or logged.
pub data Line : Type 0 where
  app_started signal_received stopping nas_terminated n2_terminated : Line
  f1ap_terminated cu_cp_terminated app_stopped central_unit_stopped : Line

-- `os.Exit`, or the return of `main`, with its code; the default action of a signal; a panic.
pub data Ending : Type 0 where
  exit : ℕ → Ending
  killed panicked : Ending

-- The statements of `Terminate`: the send on `cu.Close`, the N2 connection, the listener.
pub data Terminating : Type 0 where
  closing at_n2 at_listener terminated : Terminating

-- The main goroutine. `starting` is in `InitContext` before its last `go`, when both servers run.
pub data Main : Type 0 where
  starting initialised started registering waiting stopping_app : Main
  in_terminate : Terminating → Main
  returned : Main

-- The goroutine of `main` that exits on a signal.
pub data Exiter : Type 0 where
  no_exiter registering_too listening : Exiter

-- The goroutine of `InitContext`, which waits for `cuCtx.Ctx.Done()`. Whether the field
-- holds the background context, whose channel is nil, or the one that `Start` puts there, is decided
-- when it reads the field.
pub data Watcher : Type 0 where
  no_watcher reading on_background on_app : Watcher
  ending : Terminating → Watcher

-- `receivers` is the number of goroutines that wait to receive from `cu.Close`. A signal channel
-- has room for one signal; a further one is dropped.
pub record Process : Type 0 where
  pub main : Main
  pub exiter : Exiter
  pub watcher : Watcher
  pub main_signal : Bool
  pub exiter_signal : Bool
  pub app_context : Bool
  pub cancelled : Bool
  pub receivers : ℕ
  pub n2 : Bool
  pub n2_closed : Bool
  pub f1ap_stop_closed : Bool
  pub listener_closed : Bool
  pub printed : List Line
  pub over : Option Ending

abbrev pub print : Line → Process → Process
print l p = record p { printed = l ∷ p.printed }

-- `main` in `Start`, both servers running. No goroutine receives from `cu.Close`: the repository
-- has no such operation. `n2` is set in `initAmfConn`.
abbrev pub launched : Process
launched = record {
  main = starting;
  exiter = no_exiter;
  watcher = no_watcher;
  main_signal = false;
  exiter_signal = false;
  app_context = false;
  cancelled = false;
  receivers = 0;
  n2 = true;
  n2_closed = false;
  f1ap_stop_closed = false;
  listener_closed = false;
  printed = [];
  over = none;
}

-- `close(cu.f1apStop)` panics on a closed channel.
unfoldable pub close_listener : Process → Process
close_listener p =
    if p.f1ap_stop_closed
    then record p { over = some panicked }
    else print cu_cp_terminated
        (print f1ap_terminated (record p { f1ap_stop_closed = true; listener_closed = true }))

-- One statement of `Terminate`; none where the goroutine is blocked.
unfoldable pub terminate : Terminating → Process → Option (Terminating × Process)
unfolding close_listener
terminate closing p =
    if p.receivers == 0
    then none
    else some (at_n2, print nas_terminated (record p { receivers = p.receivers - 1 }))
terminate at_n2 p =
    some (at_listener, if p.n2 then print n2_terminated (record p { n2_closed = true }) else p)
terminate at_listener p = some (terminated, close_listener p)
terminate terminated p = none

-- The end of `Start`: the context of the app takes the place of the background context.
abbrev pub end_start : Process → Process
end_start p = print app_started (record p { app_context = true })

-- `Stop` up to its call of `Terminate`; its own context is not used.
abbrev pub begin_stop : Process → Process
begin_stop p = print stopping (record p { cancelled = true })

-- What follows `Terminate` in `Stop` and in `waitForShutdown`.
abbrev pub end_stop : Process → Process
end_stop p = print central_unit_stopped (print app_stopped p)

-- `InitContext` returns, `Start` puts the context of the app in place, `main` starts the goroutine
-- that exits, and `waitForShutdown` and `Stop` follow.
unfoldable pub main_step : Main → Process → Option Process
unfolding terminate
main_step starting p = some (record p { main = initialised; watcher = reading })
main_step initialised p = some (record (end_start p) { main = started })
main_step started p = some (record p { main = registering; exiter = registering_too })
main_step registering p = some (record p { main = waiting })
main_step waiting p =
    if p.main_signal
    then some (record (print signal_received p) { main = stopping_app; main_signal = false })
    else none
main_step stopping_app p = some (record (begin_stop p) { main = in_terminate closing })
main_step (in_terminate terminated) p =
    some (record (end_stop p) { main = returned; over = some (exit 0) })
main_step (in_terminate t) p = elim (terminate t p) [
  | none ↦ none
  | some (t', p') ↦ some (record p' { main = in_terminate t' })
]
main_step returned p = none

unfoldable pub exiter_step : Exiter → Process → Option Process
exiter_step no_exiter p = none
exiter_step registering_too p = some (record p { exiter = listening })
exiter_step listening p = if p.exiter_signal then some (record p { over = some (exit 0) }) else none

unfoldable pub watcher_step : Watcher → Process → Option Process
unfolding terminate
watcher_step no_watcher p = none
watcher_step reading p =
    some (record p { watcher = if p.app_context then on_app else on_background })
watcher_step on_background p = none
watcher_step on_app p = if p.cancelled then some (record p { watcher = ending closing }) else none
watcher_step (ending t) p = elim (terminate t p) [
  | none ↦ none
  | some (t', p') ↦ some (record p' { watcher = ending t' })
]

-- Whether `signal.Notify` has been called.
unfoldable pub main_notified : Main → Bool
main_notified starting = false
main_notified initialised = false
main_notified started = false
main_notified registering = false
main_notified _ = true

unfoldable pub exiter_notified : Exiter → Bool
exiter_notified listening = true
exiter_notified _ = false

-- SIGINT or SIGTERM goes to every registered channel; with none it ends the program.
unfoldable pub signal : Process → Process
unfolding main_notified exiter_notified
signal p =
    if main_notified p.main || exiter_notified p.exiter
    then record p {
      main_signal = p.main_signal || main_notified p.main;
      exiter_signal = p.exiter_signal || exiter_notified p.exiter;
    }
    else record p { over = some killed }

-- The steps of the program itself.
pub data Quiet (p : Process) : Process → Type 0 where
  by_main : {q : Process} → p.over ≡ none → main_step p.main p ≡ some q → Quiet p q
  by_exiter : {q : Process} → p.over ≡ none → exiter_step p.exiter p ≡ some q → Quiet p q
  by_watcher : {q : Process} → p.over ≡ none → watcher_step p.watcher p ≡ some q → Quiet p q

-- A signal, or a panic in another goroutine, may come at any time.
pub data Step (p : Process) : Process → Type 0 where
  quiet : {q : Process} → Quiet p q → Step p q
  signalled : p.over ≡ none → Step p (signal p)
  fault : p.over ≡ none → Step p (record p { over = some panicked })

pub data Reach : Process → Type 0 where
  launch : Reach launched
  next : {p q : Process} → Reach p → Step p q → Reach q

-- Steps one after another, from a given state.
pub data Steps (p : Process) : Process → Type 0 where
  here : Steps p p
  onto : {q r : Process} → Steps p q → Step q r → Steps p r

pub data Quietly (p : Process) : Process → Type 0 where
  still : Quietly p p
  then_on : {q r : Process} → Quietly p q → Quiet q r → Quietly p r
