-- ===== src/Fsm/Pool.antt =====
-- `SendEvent`, `SyncSendEvent` and `handleEvent` of internal/common/fsm/fsm.go: many calls at once
-- on one state object. Each call has its closure `fn`, which the worker pool runs at any time, or
-- the caller itself where the call is synchronous; `slock` orders the closures. The pool is
-- not of this repository: that it runs every closure, in any order, is all that is used of it. A
-- closure whose callback panics takes no further step, and keeps the lock; the answer that it may
-- have given before is left out.
pub mod Change
pub mod Lock
pub mod Serial
pub mod Log
pub mod Linear
pub mod Progress
use central_unit.Base.{
  ℕ, suc, ◌≡◌, Bool, true, false, ◌&&◌, not, List, [], ◌∷◌, Option, none, some, ◌==◌, if◌then◌else◌,
  done, panic,
}
use central_unit.Fsm.{EventData, State, Fsm, has_event, handle_one}

-- Where a closure is: before `Lock`, after it, in `processNextEvent`, after `Unlock`. The Boolean
-- is whether the event was accepted.
pub data Place : Type 0 where
  submitted locked : Place
  draining finished : Bool → Place

-- `answers` is all that was put in the call's `errCh`, true for nil; nothing is ever taken out,
-- which is the worst case for a sender.
pub record Task (A : Type 0) : Type 0 where
  pub event : EventData A
  pub sync : Bool
  pub place : Place
  pub answers : List Bool

pub record System (A : Type 0) : Type 0 where
  pub obj : State A
  pub slock : Bool
  pub count : ℕ
  pub tasks : ℕ → Option (Task A)

-- `errCh <- x` on `make(chan error, 1)`: a second value blocks.
unfoldable pub put : List Bool → Bool → Option (List Bool)
put [] x = some (x ∷ [])
put (_ ∷ _) x = none

unfoldable pub update : {B : Type 0} → (ℕ → Option B) → ℕ → B → ℕ → Option B
update f i b j = if j == i then some b else f j

module _ {A : Type 0} where
  abbrev pub new_system : State A → System A
  new_system s = record { obj = s; slock = false; count = 0; tasks = λ _. none }

  unfoldable pub set_task : System A → ℕ → Task A → System A
  set_task sys i t = record sys { tasks = update sys.tasks i t }

  unfoldable pub lock : System A → ℕ → Task A → Option (System A)
  unfolding set_task
  lock sys i t =
      if sys.slock
      then none
      else some (set_task (record sys { slock = true }) i (record t { place = locked }))

module _ {A : Type 0} (fsm : Fsm A) where
  unfoldable pub listed : Task A → Bool
  unfolding has_event
  listed t = has_event fsm.events t.event.ev_type

  -- `handleEvent` itself: the closure is made and handed over. An event of the list is answered at
  -- once where the call does not wait.
  unfoldable pub handle_event : Bool → EventData A → System A → System A
  unfolding set_task
  handle_event sync e sys =
      let early = if has_event fsm.events e.ev_type && not sync then true ∷ [] else [] in
      set_task (record sys { count = suc sys.count }) sys.count
        (record { event = e; sync = sync; place = submitted; answers = early })

  -- `SendEvent`
  abbrev pub send_event : EventData A → System A → System A
  send_event = handle_event false

  -- `SyncSendEvent`, up to its wait for the answer.
  abbrev pub start_sync_send_event : EventData A → System A → System A
  start_sync_send_event = handle_event true

  -- `fsm.handler(state, event)`, or `fsm.transit(state, event, errCh)`, which answers.
  unfoldable pub run_handler : System A → ℕ → Task A → Option (System A)
  unfolding set_task put listed handle_one
  run_handler sys i t = elim (handle_one fsm sys.obj t.event) [
    | panic ↦ none
    | done (s, ok) ↦ elim (if listed t then some t.answers else put t.answers ok) [
      | none ↦ none
      | some answers ↦ some (
          set_task (record sys { obj = s }) i (record t { place = draining ok; answers = answers }))
    ]
  ]

  -- `Unlock`, and for a synchronous call of a listed event the answer after it.
  unfoldable pub unlock : System A → ℕ → Task A → Bool → Option (System A)
  unfolding set_task put listed
  unlock sys i t ok = elim (if listed t && t.sync then put t.answers true else some t.answers) [
    | none ↦ none
    | some answers ↦ some (
        set_task (record sys { slock = false }) i
          (record t { place = finished ok; answers = answers }))
  ]

  -- One turn of `for state.next != nil`, or the unlock after it.
  unfoldable pub drain : System A → ℕ → Task A → Bool → Option (System A)
  unfolding handle_one unlock
  drain sys i t ok = elim sys.obj.next [
    | none ↦ unlock sys i t ok
    | some e ↦ elim (handle_one fsm (record sys.obj { next = none }) e) [
      | panic ↦ none
      | done (s, _) ↦ some (record sys { obj = s })
    ]
  ]

  -- The next action of a closure: none where it is blocked, over or has panicked.
  unfoldable pub act : System A → ℕ → Task A → Place → Option (System A)
  unfolding lock run_handler drain
  act sys i t submitted = lock sys i t
  act sys i t locked = run_handler sys i t
  act sys i t (draining ok) = drain sys i t ok
  act sys i t (finished ok) = none

  pub data Step (s : System A) : System A → Type 0 where
    send : (sync : Bool) (e : EventData A) → Step s (handle_event sync e s)
    go :
        {s' : System A} (i : ℕ) (t : Task A)
        → s.tasks i ≡ some t
        → act s i t t.place ≡ some s'
        → Step s s'

  pub data Reach (first : State A) : System A → Type 0 where
    start : Reach first (new_system first)
    later : {s s' : System A} → Reach first s → Step s s' → Reach first s'

  -- Steps one after another, from a given state.
  pub data Steps (s : System A) : System A → Type 0 where
    here : Steps s s
    onto : {r q : System A} → Steps s r → Step r q → Steps s q
