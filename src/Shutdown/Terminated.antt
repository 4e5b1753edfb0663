-- ===== src/Shutdown/Terminated.antt =====
-- `Terminate` never gets past its first statement.
use central_unit.Base.{◌≡◌, refl, ◌⊎◌, Bool, true, false, List, [], ◌∷◌, some, arith}
use central_unit.Shutdown.{
  Line, central_unit_stopped, Ending, exit, killed, panicked, closing, Main, in_terminate, returned,
  Exiter, Watcher, ending, Process, launched, terminate, main_step, exiter_step, watcher_step,
  signal, Quiet, by_main, by_exiter, by_watcher, Step, quiet, signalled, fault, Reach, launch, next,
}

-- Where the main goroutine can be with `Terminate` blocked.
pub before_close : Main → Bool
before_close (in_terminate closing) = true
before_close (in_terminate t) = false
before_close returned = false
before_close _ = true

unfoldable pub watch_before_close : Watcher → Bool
watch_before_close (ending closing) = true
watch_before_close (ending t) = false
watch_before_close _ = true

-- "central-unit stopped" is among the lines.
pub says_stopped : List Line → Bool
says_stopped [] = false
says_stopped (central_unit_stopped ∷ ls) = true
says_stopped (_ ∷ ls) = says_stopped ls

pub record IsOpen (p : Process) : Type 0 where
  pub main : before_close p.main ≡ true
  pub watcher : watch_before_close p.watcher ≡ true
  pub receivers : p.receivers ≡ 0
  pub n2 : p.n2_closed ≡ false
  pub f1ap_stop : p.f1ap_stop_closed ≡ false
  pub listener : p.listener_closed ≡ false
  pub printed : says_stopped p.printed ≡ false
  pub ended : (e : Ending) → p.over ≡ some e → (e ≡ exit 0) ⊎ ((e ≡ killed) ⊎ (e ≡ panicked))

launched-IsOpen : IsOpen launched
unfolding before_close watch_before_close says_stopped
launched-IsOpen = record {
  main = refl;
  watcher = refl;
  receivers = refl;
  n2 = refl;
  f1ap_stop = refl;
  listener = refl;
  printed = refl;
  ended = λ e h. cc;
}

main_step-IsOpen :
    (m : Main) (p q : Process) → p.main ≡ m → IsOpen p → main_step m p ≡ some q → IsOpen q
unfolding main_step terminate before_close watch_before_close says_stopped
main_step-IsOpen m p q e h s = record {
  main = ground (arith, h.main, h.receivers);
  watcher = ground (arith, h.main, h.watcher, h.receivers);
  receivers = ground (arith, h.main, h.receivers);
  n2 = ground (arith, h.main, h.receivers, h.n2);
  f1ap_stop = ground (arith, h.main, h.receivers, h.f1ap_stop);
  listener = ground (arith, h.main, h.receivers, h.listener);
  printed = ground (arith, h.main, h.receivers, h.printed);
  ended = λ d o. ground (arith, h.main, h.receivers, h.ended d);
}

exiter_step-IsOpen :
    (x : Exiter) (p q : Process) → p.exiter ≡ x → IsOpen p → exiter_step x p ≡ some q → IsOpen q
unfolding exiter_step
exiter_step-IsOpen x p q e h s = record {
  main = ground (arith, h.main);
  watcher = ground (arith, h.watcher);
  receivers = ground (arith, h.receivers);
  n2 = ground (arith, h.n2);
  f1ap_stop = ground (arith, h.f1ap_stop);
  listener = ground (arith, h.listener);
  printed = ground (arith, h.printed);
  ended = λ d o. ground (arith, h.ended d);
}

watcher_step-IsOpen :
    (w : Watcher) (p q : Process) → p.watcher ≡ w → IsOpen p → watcher_step w p ≡ some q → IsOpen q
unfolding watcher_step terminate watch_before_close
watcher_step-IsOpen w p q e h s = record {
  main = ground (arith, h.main, h.watcher, h.receivers);
  watcher = ground (arith, h.watcher, h.receivers);
  receivers = ground (arith, h.watcher, h.receivers);
  n2 = ground (arith, h.watcher, h.receivers, h.n2);
  f1ap_stop = ground (arith, h.watcher, h.receivers, h.f1ap_stop);
  listener = ground (arith, h.watcher, h.receivers, h.listener);
  printed = ground (arith, h.watcher, h.receivers, h.printed);
  ended = λ d o. ground (arith, h.watcher, h.receivers, h.ended d);
}

signal-IsOpen : (p : Process) → IsOpen p → IsOpen (signal p)
unfolding signal
signal-IsOpen p h = record {
  main = ground (arith, h.main);
  watcher = ground (arith, h.watcher);
  receivers = ground (arith, h.receivers);
  n2 = ground (arith, h.n2);
  f1ap_stop = ground (arith, h.f1ap_stop);
  listener = ground (arith, h.listener);
  printed = ground (arith, h.printed);
  ended = λ d o. ground (arith, h.ended d);
}

Quiet-IsOpen : (p q : Process) → IsOpen p → Quiet p q → IsOpen q
Quiet-IsOpen p q h (by_main o s) = main_step-IsOpen p.main p q refl h s
Quiet-IsOpen p q h (by_exiter o s) = exiter_step-IsOpen p.exiter p q refl h s
Quiet-IsOpen p q h (by_watcher o s) = watcher_step-IsOpen p.watcher p q refl h s

Step-IsOpen : (p q : Process) → IsOpen p → Step p q → IsOpen q
Step-IsOpen p q h (quiet s) = Quiet-IsOpen p q h s
Step-IsOpen p q h (signalled o) = signal-IsOpen p h
Step-IsOpen p q h (fault o) = record {
  main = h.main;
  watcher = h.watcher;
  receivers = h.receivers;
  n2 = h.n2;
  f1ap_stop = h.f1ap_stop;
  listener = h.listener;
  printed = h.printed;
  ended = λ e k. ground arith;
}

-- In every state that the program reaches once both servers run, the N2 connection, the F1AP
-- listener and the channel `f1apStop` are open, neither `Stop` nor `waitForShutdown` has returned,
-- "central-unit stopped" has not been printed, and if the program is over then with code
-- 0, by the default action of a signal, or by a panic of another goroutine.
pub Reach-IsOpen : (p : Process) → Reach p → IsOpen p
Reach-IsOpen p launch = launched-IsOpen
Reach-IsOpen p (next {p = r} w s) = Step-IsOpen r p (Reach-IsOpen r w) s
