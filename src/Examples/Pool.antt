-- ===== src/Examples/Pool.antt =====
-- Two calls at once on one state object, the second of which gets the lock first.
use central_unit.Base.{ℕ, ◌≡◌, ◌≢◌, refl, Bool, true, false, List, ◌++◌, none, some, panic, arith}
use central_unit.Fsm.{EventData, State, has_event, callback, next_state, handle_one}
use central_unit.Fsm.Pool.{
  finished, Task, System, put, update, set_task, handle_event, lock, listed, run_handler, unlock,
  drain, act, send, go, Reach, start, later, Steps, here, onto,
}
use central_unit.Fsm.Pool.Change.{inside}
use central_unit.Fsm.Pool.Serial.{Served, Serial}
use central_unit.Fsm.Pool.Linear.{IsLogOf, Steps-Serial}
use central_unit.Fsm.Pool.Progress.{closures_go_on}
use central_unit.Examples.Machine.{machine, event}
use central_unit.Examples.Machine as Machine

-- An accepted event and a listed one are sent; the listed one is under way.
busy :
    (s : System ℕ) × Reach machine Machine.start s
    × (s.slock ≡ true)
    × ((t : Task ℕ) × (s.tasks 0 ≡ some t) × ((ok : Bool) → t.place ≢ finished ok))
    × ((t : Task ℕ) × (s.tasks 1 ≡ some t) × (inside t.place ≡ true))
unfolding handle_event set_task update act lock has_event inside
busy = (
  _,
  later (later (later start (send false (event 1))) (send false (event 7))) (go 1 _ refl refl),
  refl,
  (_, refl, λ ok p. cc),
  (_, refl, refl),
)

never_panics : (o : State ℕ) (e : EventData ℕ) → handle_one machine o e ≢ panic
unfolding handle_one next_state callback
never_panics o e = ground arith

closures_go_on_example :
    (j : ℕ) × (u : Task ℕ) × (busy.0.tasks j ≡ some u) × (act machine busy.0 j u u.place ≢ none)
closures_go_on_example =
    let (s, r, taken, (t, at_0, going), second) = busy in
    closures_go_on machine Machine.start s 0 t never_panics r at_0 going

-- The listed event counts down to 0, and its call is over.
one_over : (s : System ℕ) × Reach machine Machine.start s
unfolding handle_event set_task update act lock run_handler drain unlock put listed has_event
    handle_one next_state callback
one_over = (
  _,
  later
      (later
        (later
          (later
            (later
              (later (later (later start (send false (event 1))) (send false (event 7)))
                (go 1 _ refl refl))
              (go 1 _ refl refl))
            (go 1 _ refl refl))
          (go 1 _ refl refl))
        (go 1 _ refl refl))
      (go 1 _ refl refl),
)

-- Then the accepted event moves the state.
both_over : (s : System ℕ) × Steps machine one_over.0 s × (s.slock ≡ false)
unfolding handle_event set_task update act lock run_handler drain unlock put listed has_event
    handle_one next_state callback one_over
both_over =
    (_, onto (onto (onto here (go 0 _ refl refl)) (go 0 _ refl refl)) (go 0 _ refl refl), refl)

Steps-Serial_example :
    (earlier extra : List (Served ℕ)) × IsLogOf one_over.0 earlier
    × IsLogOf both_over.0 (extra ++ earlier)
    × Serial machine Machine.start (extra ++ earlier) both_over.0.obj
Steps-Serial_example =
    Steps-Serial machine Machine.start one_over.0 both_over.0 one_over.1 both_over.1 both_over.2
