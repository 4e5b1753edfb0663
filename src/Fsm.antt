-- ===== src/Fsm.antt =====
-- The event-driven state machine of internal/common/fsm (fsm.go, state.go, event.go).
-- A callback is a function of the state object and the event, and may set the next event; the
-- payload behind `unsafe.Pointer` is the type `A`. Every event is handled under the lock of its
-- state object, so one call is one step here, whether it runs in the pool or at once.
pub mod Safety
pub mod Reach
pub mod Halt
pub mod Pool
use central_unit.Base.{
  ℕ, zero, suc, Bool, true, false, ◌&&◌, List, [], ◌∷◌, ◌==◌, if◌then◌else◌, Option, none, some,
  Run, done, panic, ◌>>=◌,
}

-- `StateType` and `EventType` are names; the two events that the machine makes itself stand apart.
pub data EventType : Type 0 where
  entry_event exit_event : EventType
  named : ℕ → EventType

abbrev pub same_event : EventType → EventType → Bool
same_event entry_event entry_event = true
same_event exit_event exit_event = true
same_event (named a) (named b) = a == b
same_event _ _ = false

pub record EventData (A : Type 0) : Type 0 where
  pub ev_type : EventType
  pub ev_dat : Option A

pub record State (A : Type 0) : Type 0 where
  pub current : ℕ
  pub next : Option (EventData A)
  pub info : A

-- A nil pointer is a value of `A`, where the program has one.
unfoldable pub new_state : {A : Type 0} → ℕ → A → State A
new_state i info = record { current = i; next = none; info = info }

unfoldable pub force_set_state : {A : Type 0} → State A → ℕ → State A
force_set_state s now = record s { current = now }

unfoldable pub set_next_event : {A : Type 0} → State A → EventData A → State A
set_next_event s event = record s { next = some event }

unfoldable pub new_event_data : {A : Type 0} → EventType → Option A → EventData A
new_event_data ev_type value = record { ev_type = ev_type; ev_dat = value }

-- An entry of `Transitions`: the key's state and event, and the next state.
pub record Transition : Type 0 where
  pub state : ℕ
  pub event : EventType
  pub target : ℕ

abbrev pub Handler : Type 0 → Type 0
Handler A = State A → EventData A → State A

-- A key of `Callbacks` with its function; nil is `none`.
pub record Callback (A : Type 0) : Type 0 where
  pub key : ℕ
  pub function : Option (Handler A)

pub record Options (A : Type 0) : Type 0 where
  pub transitions : List Transition
  pub callbacks : List (Callback A)
  pub generic_callback : Option (Handler A)
  pub non_transitional : List EventType

pub record Fsm (A : Type 0) : Type 0 where
  pub transitions : List Transition
  pub callbacks : List (Callback A)
  pub events : List EventType
  pub handler : Option (Handler A)

unfoldable pub next_state : List Transition → ℕ → EventType → Option ℕ
next_state [] s e = none
next_state (t ∷ ts) s e =
    if t.state == s && same_event t.event e then some t.target else next_state ts s e

unfoldable pub known_event : List Transition → EventType → Bool
known_event [] e = false
known_event (t ∷ ts) e = if same_event t.event e then true else known_event ts e

unfoldable pub has_event : List EventType → EventType → Bool
has_event [] e = false
has_event (x ∷ xs) e = if same_event x e then true else has_event xs e

unfoldable pub disjoint : List Transition → List EventType → Bool
unfolding known_event
disjoint ts [] = true
disjoint ts (e ∷ es) = if known_event ts e then false else disjoint ts es

module _ {A : Type 0} where
  unfoldable pub has_key : List (Callback A) → ℕ → Bool
  has_key [] s = false
  has_key (c ∷ cs) s = if c.key == s then true else has_key cs s

  -- `callbacks[s]`: nil too where the key is missing.
  unfoldable pub callback : List (Callback A) → ℕ → Option (Handler A)
  callback [] s = none
  callback (c ∷ cs) s = if c.key == s then c.function else callback cs s

  unfoldable pub states_known : List Transition → List (Callback A) → Bool
  unfolding has_key
  states_known [] cs = true
  states_known (t ∷ ts) cs = if has_key cs t.state then states_known ts cs else false

  unfoldable pub new_fsm : Options A → Run (Fsm A)
  unfolding states_known disjoint
  new_fsm opts =
      if states_known opts.transitions opts.callbacks
      then if disjoint opts.transitions opts.non_transitional
        then done (record {
          transitions = opts.transitions;
          callbacks = opts.callbacks;
          events = opts.non_transitional;
          handler = opts.generic_callback;
        })
        else panic
      else panic

  -- `if callback != nil { callback(state, event) }`
  abbrev pub call_if : Option (Handler A) → State A → EventData A → State A
  call_if none s e = s
  call_if (some f) s e = f s e

  -- A call with no test, that of `fsm.handler` too: nil panics.
  abbrev pub call : Option (Handler A) → State A → EventData A → Run (State A)
  call none s e = panic
  call (some f) s e = done (f s e)

  unfoldable pub set_state : State A → ℕ → State A
  set_state s now = record s { current = now }

  unfoldable pub clone : EventData A → EventType → EventData A
  clone e t = record e { ev_type = t }

  -- The branch of a known transition: event, exit event, the change, entry event.
  unfoldable pub follow : Fsm A → State A → EventData A → ℕ → Run (State A)
  unfolding callback set_state clone
  follow fsm s e target =
      let cur = callback fsm.callbacks s.current in
      let s1 = call_if cur s e in
      if s.current == target
      then done s1
      else (call cur s1 (clone e exit_event) >>= λ s2.
          done
            (call_if (callback fsm.callbacks target) (set_state s2 target) (clone e entry_event)))

  -- The state, and whether the event was accepted (`nil` on the error channel).
  unfoldable pub transit : Fsm A → State A → EventData A → Run (State A × Bool)
  unfolding follow
  transit fsm s e = elim (next_state fsm.transitions s.current e.ev_type) [
    | none ↦ done (s, false)
    | some target ↦ follow fsm s e target >>= λ s'. done (s', true)
  ]

  -- The handling of one event, before any next event.
  unfoldable pub handle_one : Fsm A → State A → EventData A → Run (State A × Bool)
  unfolding has_event transit
  handle_one fsm s e =
      if has_event fsm.events e.ev_type
      then (call fsm.handler s e >>= λ s'. done (s', true))
      else transit fsm s e

  -- `for state.next != nil`, on fuel; `none` means that the fuel ran out.
  unfoldable pub process_next : ℕ → Fsm A → State A → Option (Run (State A))
  process_next zero fsm s = none
  process_next (suc fuel) fsm s = elim s.next [
    | none ↦ some (done s)
    | some e ↦ elim (handle_one fsm (record s { next = none }) e) [
      | done (s', _) ↦ process_next fuel fsm s'
      | panic ↦ some panic
    ]
  ]

  -- `SyncSendEvent`: the state after the event and all that it sets off, and whether the error is
  -- nil.
  unfoldable pub sync_send_event : ℕ → Fsm A → State A → EventData A → Option (Run (State A × Bool))
  sync_send_event fuel fsm s e = elim (handle_one fsm s e) [
    | panic ↦ some panic
    | done (s', accepted) ↦ elim (process_next fuel fsm s') [
      | none ↦ none
      | some r ↦ some (r >>= λ t. done (t, accepted))
    ]
  ]
