-- ===== src/Examples/Ending.antt =====
-- The end of the program, with signals at two moments.
use central_unit.Base.{◌≡◌, ◌≢◌, refl, ◌⊎◌, false, none, some}
use central_unit.Shutdown.{
  exit, closing, in_terminate, listening, Process, main_step, exiter_step, watcher_step,
  main_notified, exiter_notified, signal, Quiet, by_main, by_exiter, by_watcher, quiet, signalled,
  Reach, launch, next, Steps, here, onto, Quietly, still, then_on,
}
use central_unit.Shutdown.Terminated.{IsOpen, Reach-IsOpen}
use central_unit.Shutdown.Signals.{signal-exits, stop_never_ends}

by : {p q : Process} → Reach p → Quiet p q → Reach q
by r s = next r (quiet s)

-- `main` waits for a signal; the goroutine that exits has not registered yet.
ready : (p : Process) × Reach p × (p.over ≡ none)
unfolding main_step
ready = (
  _,
  by (by (by (by launch (by_main refl refl)) (by_main refl refl)) (by_main refl refl))
      (by_main refl refl),
  refl,
)

-- The other goroutine has registered too.
both : (p : Process) × Reach p × (p.exiter ≡ listening)
unfolding main_step exiter_step ready
both = (_, by ready.1 (by_exiter refl refl), refl)

-- A signal, and `main` takes its own before the other goroutine runs.
taken : (q : Process) × Steps (signal both.0) q
unfolding main_step exiter_step signal main_notified exiter_notified ready both
taken = (_, onto here (quiet (by_main refl refl)))

signal-exits_example :
    (taken.0.over ≢ none)
    ⊎ ((r : Process) × (exiter_step taken.0.exiter taken.0 ≡ some r) × (r.over ≡ some (exit 0)))
signal-exits_example = signal-exits both.0 taken.0 both.1 both.2 taken.1

-- The first signal comes before that, and only `main` gets it.
stuck :
    (p : Process) × Reach p
    × (p.over ≡ none)
    × (p.main ≡ in_terminate closing)
    × (p.exiter_signal ≡ false)
unfolding main_step signal main_notified exiter_notified ready
stuck = (
  _,
  by (by (next ready.1 (signalled refl)) (by_main refl refl)) (by_main refl refl),
  refl,
  refl,
  refl,
)

Reach-IsOpen_example : IsOpen stuck.0
Reach-IsOpen_example = Reach-IsOpen stuck.0 stuck.1

-- The exiting goroutine registers too late, and the watcher joins `Stop`.
late : (q : Process) × Quietly stuck.0 q
unfolding exiter_step watcher_step main_step signal main_notified exiter_notified ready stuck
late = (
  _,
  then_on (then_on (then_on still (by_exiter refl refl)) (by_watcher refl refl))
      (by_watcher refl refl),
)

stop_never_ends_example : (late.0.over ≡ none) × (late.0.main ≡ in_terminate closing)
stop_never_ends_example = stop_never_ends stuck.0 late.0 stuck.1 stuck.2 stuck.3 stuck.4 late.1
