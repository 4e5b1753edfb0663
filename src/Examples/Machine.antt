-- ===== src/Examples/Machine.antt =====
-- A machine with two states and an event that counts down, at concrete inputs.
use central_unit.Base.{
  ℕ, ◌-◌, ◌≡◌, ◌↔◌, refl, true, [], ◌∷◌, none, some, done, panic, arith, ◌==◌, if◌then◌else◌,
}
use central_unit.Fsm.{
  has_event, named, EventData, State, Handler, Options, Fsm, new_fsm, callback, next_state,
  handle_one, process_next, sync_send_event,
}
use central_unit.Fsm.Safety.{IsFilled, new_fsm_panic_iff}
use central_unit.Fsm.Reach.{Walk, KeepsState, sync_send_event-Walk}

abbrev pub event : ℕ → EventData ℕ
event n = record { ev_type = named n; ev_dat = none }

-- The generic callback sets its own event again until the counter is 0.
abbrev count_down : Handler ℕ
count_down s e = if s.info == 0 then s else record s { info = s.info - 1; next = some (event 7) }

abbrev idle : Handler ℕ
idle s e = s

abbrev options : Options ℕ
options = record {
  transitions =
      record { state = 0; event = named 1; target = 1 }
      ∷ record { state = 1; event = named 2; target = 0 }
      ∷ [];
  callbacks =
      record { key = 0; function = some idle } ∷ record { key = 1; function = some idle } ∷ [];
  generic_callback = some count_down;
  non_transitional = named 7 ∷ [];
}

abbrev pub machine : Fsm ℕ
machine = record {
  transitions = options.transitions;
  callbacks = options.callbacks;
  events = named 7 ∷ [];
  handler = some count_down;
}

abbrev pub start : State ℕ
start = record { current = 0; next = none; info = 3 }

filled : IsFilled options.callbacks
filled = ((λ p. cc), ((λ p. cc), tt))

-- The same machine with no generic callback.
abbrev no_generic : Options ℕ
no_generic = record options { generic_callback = none }

made_no_generic : new_fsm no_generic ≡ done (record machine { handler = none })
unfolding new_fsm
made_no_generic = refl

new_fsm_panic_iff_example :
    (handle_one (record machine { handler = none }) start (event 7) ≡ panic)
    ↔ ((has_event (named 7 ∷ []) (named 7) ≡ true) × (no_generic.generic_callback ≡ none))
new_fsm_panic_iff_example =
    new_fsm_panic_iff no_generic (record machine { handler = none }) start (event 7) made_no_generic
      filled

keeps : KeepsState machine
unfolding callback
keeps = record {
  handler_keeps = λ f s e h. ground arith;
  callback_keeps = λ k f s e h. ground arith;
}

sent : sync_send_event 9 machine start (event 1) ≡ some (done (record start { current = 1 }, true))
unfolding sync_send_event process_next handle_one next_state
sent = refl

sync_send_event-Walk_example : Walk machine.transitions 0 1
sync_send_event-Walk_example =
    sync_send_event-Walk machine 9 start (record start { current = 1 }) (event 1) true keeps sent
