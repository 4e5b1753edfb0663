-- ===== src/Shutdown/Signals.antt =====
-- What ends the program.
use central_unit.Base.{◌≡◌, ◌≢◌, refl, ◌⊎◌, inl, inr, Bool, true, false, none, some, arith}
use central_unit.Shutdown.{
  exit, closing, Main, starting, initialised, started, in_terminate, listening, no_exiter, Process,
  terminate, main_step, close_listener, exiter_step, watcher_step, main_notified, exiter_notified,
  signal, Quiet, by_main, by_exiter, by_watcher, Step, quiet, signalled, fault, Reach, launch, next,
  Steps, here, onto, Quietly, still, then_on,
}
use central_unit.Shutdown.Terminated.{watch_before_close, Reach-IsOpen}

-- `main` has not yet started the goroutine that exits.
pub early : Main → Bool
early starting = true
early initialised = true
early started = true
early _ = false

pub IsOrdered : Process → Type 0
IsOrdered p = early p.main ≡ true → p.exiter ≡ no_exiter

Quiet-IsOrdered : (p q : Process) → IsOrdered p → Quiet p q → IsOrdered q
unfolding IsOrdered early main_step exiter_step watcher_step terminate close_listener
Quiet-IsOrdered p q h (by_main o s) = ground arith
Quiet-IsOrdered p q h (by_exiter o s) = ground arith
Quiet-IsOrdered p q h (by_watcher o s) = ground arith

signal-IsOrdered : (p : Process) → IsOrdered p → IsOrdered (signal p)
unfolding IsOrdered early signal
signal-IsOrdered p h = ground arith

Step-IsOrdered : (p q : Process) → IsOrdered p → Step p q → IsOrdered q
unfolding IsOrdered
Step-IsOrdered p q h (quiet s) = Quiet-IsOrdered p q h s
Step-IsOrdered p q h (signalled o) = signal-IsOrdered p h
Step-IsOrdered p q h (fault o) = h

Reach-IsOrdered : (p : Process) → Reach p → IsOrdered p
unfolding IsOrdered
Reach-IsOrdered p launch = λ h. refl
Reach-IsOrdered p (next {p = r} w s) = Step-IsOrdered r p (Reach-IsOrdered r w) s

-- Over, or with a signal that the exiting goroutine has not taken.
IsDue : Process → Type 0
IsDue p = (p.over ≢ none) ⊎ ((p.exiter ≡ listening) × (p.exiter_signal ≡ true))

Quiet-IsDue : (p q : Process) → IsOrdered p → IsDue p → Quiet p q → IsDue q
unfolding IsDue IsOrdered early main_step exiter_step watcher_step terminate close_listener
Quiet-IsDue p q k h (by_main o s) = ground arith
Quiet-IsDue p q k h (by_exiter o s) = ground arith
Quiet-IsDue p q k h (by_watcher o s) = ground arith

Step-IsDue : (p q : Process) → IsOrdered p → IsDue p → Step p q → IsDue q
unfolding IsDue signal
Step-IsDue p q k h (quiet s) = Quiet-IsDue p q k h s
Step-IsDue p q k h (signalled o) = ground arith
Step-IsDue p q k h (fault o) = inl (λ e. cc)

Steps-IsDue : (p q : Process) → IsOrdered p → IsDue p → Steps p q → IsOrdered q × IsDue q
Steps-IsDue p q k h here = (k, h)
Steps-IsDue p q k h (onto {q = r} w s) =
    let (k', h') = Steps-IsDue p r k h w in (Step-IsOrdered r q k' s, Step-IsDue r q k' h' s)

-- A signal that comes once the goroutine that exits has registered ends the program: however
-- the goroutines are scheduled afterwards, and whatever else happens, the program is over or
-- that goroutine can exit with code 0 in its next step.
pub signal-exits :
    (p q : Process)
    → Reach p
    → p.exiter ≡ listening
    → Steps (signal p) q
    → (q.over ≢ none)
      ⊎ ((r : Process) × (exiter_step q.exiter q ≡ some r) × (r.over ≡ some (exit 0)))
unfolding signal main_notified exiter_notified exiter_step IsDue
signal-exits p q reached ready w =
    let due : IsDue (signal p) = ground arith in
    let ordered = signal-IsOrdered p (Reach-IsOrdered p reached) in
    elim (Steps-IsDue (signal p) q ordered due w).1 [
      | inl o ↦ inl o
      | inr (e, s) ↦ inr (record q { over = some (exit 0) }, ground arith, refl)
    ]

-- `Stop` waits at the first statement of `Terminate`, and the exiting goroutine has no signal.
record IsStuck (p : Process) : Type 0 where
  main : p.main ≡ in_terminate closing
  watcher : watch_before_close p.watcher ≡ true
  receivers : p.receivers ≡ 0
  unsignalled : p.exiter_signal ≡ false
  alive : p.over ≡ none

Quiet-IsStuck : (p q : Process) → IsStuck p → Quiet p q → IsStuck q
unfolding main_step terminate exiter_step watcher_step watch_before_close
Quiet-IsStuck p q h (by_main o s) = absurd (ground (arith, h.main, h.receivers))
Quiet-IsStuck p q h (by_exiter o s) = record {
  main = ground (arith, h.main);
  watcher = ground (arith, h.watcher);
  receivers = ground (arith, h.receivers);
  unsignalled = ground (arith, h.unsignalled);
  alive = ground (arith, h.alive, h.unsignalled);
}
Quiet-IsStuck p q h (by_watcher o s) = record {
  main = ground (arith, h.main, h.watcher, h.receivers);
  watcher = ground (arith, h.watcher, h.receivers);
  receivers = ground (arith, h.watcher, h.receivers);
  unsignalled = ground (arith, h.unsignalled, h.watcher, h.receivers);
  alive = ground (arith, h.alive, h.watcher, h.receivers);
}

Quietly-IsStuck : (p q : Process) → IsStuck p → Quietly p q → IsStuck q
Quietly-IsStuck p q h still = h
Quietly-IsStuck p q h (then_on {q = r} w s) = Quiet-IsStuck r q (Quietly-IsStuck p r h w) s

-- `Stop` ends nothing: once it is in `Terminate`, and the goroutine that exits was not sent a signal,
-- the program by itself never ends, and `Stop` stays where it is; a signal or a panic of another
-- goroutine has to come.
pub stop_never_ends :
    (p q : Process)
    → Reach p
    → p.over ≡ none
    → p.main ≡ in_terminate closing
    → p.exiter_signal ≡ false
    → Quietly p q
    → (q.over ≡ none) × (q.main ≡ in_terminate closing)
stop_never_ends p q reached alive at unsignalled w =
    let opened = Reach-IsOpen p reached in
    let stuck =
      Quietly-IsStuck p q
        (record {
          main = at;
          watcher = opened.watcher;
          receivers = opened.receivers;
          unsignalled = unsignalled;
          alive = alive;
        })
        w in
    (stuck.alive, stuck.main)
