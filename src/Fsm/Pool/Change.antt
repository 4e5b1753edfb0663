-- ===== src/Fsm/Pool/Change.antt =====
-- What one action of a closure changes, by the place it is at.
use central_unit.Base.{
  ℕ, ◌≡◌, inl, inr, Bool, true, false, ◌&&◌, List, none, some, if◌then◌else◌, done, arith,
  Option-cases, Run-cases,
}
use central_unit.Fsm.{EventData, State, Fsm, handle_one}
use central_unit.Fsm.Pool.{
  Place, submitted, locked, draining, finished, Task, System, put, set_task, lock, listed,
  run_handler, unlock, drain, act,
}

-- Between `Lock` and `Unlock`.
unfoldable pub inside : Place → Bool
inside submitted = false
inside locked = true
inside (draining ok) = true
inside (finished ok) = false

module _ {A : Type 0} (fsm : Fsm A) where
  -- What an action of the task changes, by the place it is at.
  pub data Change (s : System A) (i : ℕ) (t : Task A) (s' : System A) : Type 0 where
    acquire :
        t.place ≡ submitted
        → s.slock ≡ false
        → s' ≡ set_task (record s { slock = true }) i (record t { place = locked })
        → Change s i t s'
    serve :
        (o : State A) (ok : Bool) (sent : List Bool)
        → t.place ≡ locked
        → handle_one fsm s.obj t.event ≡ done (o, ok)
        → (if listed fsm t then some t.answers else put t.answers ok) ≡ some sent
        → s' ≡ set_task (record s { obj = o }) i (record t { place = draining ok; answers = sent })
        → Change s i t s'
    onward :
        (o : State A) (ok b : Bool) (e : EventData A)
        → t.place ≡ draining ok
        → s.obj.next ≡ some e
        → handle_one fsm (record s.obj { next = none }) e ≡ done (o, b)
        → s' ≡ record s { obj = o }
        → Change s i t s'
    release :
        (ok : Bool) (sent : List Bool)
        → t.place ≡ draining ok
        → s.obj.next ≡ none
        → (if listed fsm t && t.sync then put t.answers true else some t.answers) ≡ some sent
        → s'
          ≡ set_task
              (record s { slock = false })
              i
              (record t { place = finished ok; answers = sent })
        → Change s i t s'

  run_handler-Change :
      (s s' : System A) (i : ℕ) (t : Task A)
      → t.place ≡ locked
      → run_handler fsm s i t ≡ some s'
      → Change s i t s'
  unfolding run_handler
  run_handler-Change s s' i t p h = elim (Run-cases (handle_one fsm s.obj t.event)) [
    | inl q ↦ absurd (ground arith)
    | inr ((o, ok), q) ↦
        elim (Option-cases (if listed fsm t then some t.answers else put t.answers ok)) [
          | inl n ↦ absurd (ground arith)
          | inr (sent, k) ↦ serve o ok sent p q k (ground arith)
        ]
  ]

  drain-Change :
      (s s' : System A) (i : ℕ) (t : Task A) (ok : Bool)
      → t.place ≡ draining ok
      → drain fsm s i t ok ≡ some s'
      → Change s i t s'
  unfolding drain unlock
  drain-Change s s' i t ok p h = elim (Option-cases s.obj.next) [
    | inr (e, n) ↦ elim (Run-cases (handle_one fsm (record s.obj { next = none }) e)) [
      | inl q ↦ absurd (ground arith)
      | inr ((o, b), q) ↦ onward o ok b e p n q (ground arith)
    ]
    | inl n ↦
        elim (Option-cases
          (if listed fsm t && t.sync then put t.answers true else some t.answers)) [
            | inl k ↦ absurd (ground arith)
            | inr (sent, k) ↦ release ok sent p n k (ground arith)
          ]
  ]

  pub act-Change :
      (s s' : System A) (i : ℕ) (t : Task A) (p : Place)
      → t.place ≡ p
      → act fsm s i t p ≡ some s'
      → Change s i t s'
  unfolding act lock
  act-Change s s' i t submitted e h = acquire e (ground arith) (ground arith)
  act-Change s s' i t locked e h = run_handler-Change s s' i t e h
  act-Change s s' i t (draining ok) e h = drain-Change s s' i t ok e h
  act-Change s s' i t (finished ok) e h = cc
