-- ===== src/Fsm/Pool/Progress.antt =====
-- Exclusion under the lock, and progress.
use central_unit.Base.{
  ℕ, ◌≡◌, ◌≢◌, refl, inl, inr, Bool, true, false, none, some, done, panic, arith, Bool-cases,
  Option-cases, Run-cases,
}
use central_unit.Fsm.{EventData, State, Fsm, handle_one}
use central_unit.Fsm.Pool.{
  Place, submitted, locked, draining, finished, Task, System, lock, run_handler, unlock, drain, act,
  Reach,
}
use central_unit.Fsm.Pool.Change.{inside}
use central_unit.Fsm.Pool.Lock.{IsLocked, IsAnswered, Reach-IsLocked, room_at_lock, room_at_unlock}

-- No two closures of one state object are ever between `Lock` and `Unlock` together.
pub closures_exclusive :
    {A : Type 0} (fsm : Fsm A) (first : State A) (s : System A) (i j : ℕ) (t u : Task A)
    → Reach fsm first s
    → s.tasks i ≡ some t
    → s.tasks j ≡ some u
    → inside t.place ≡ true
    → inside u.place ≡ true
    → i ≡ j
closures_exclusive fsm first s i j t u r = (Reach-IsLocked fsm first s r).owner i j t u

module _ {A : Type 0} (fsm : Fsm A)
    (safe : (s : State A) (e : EventData A) → handle_one fsm s e ≢ panic) where
  handle_one-done :
      (s : State A) (e : EventData A)
      → (o : State A) × (ok : Bool) × (handle_one fsm s e ≡ done (o, ok))
  handle_one-done s e = elim (Run-cases (handle_one fsm s e)) [
    | inl p ↦ absurd (safe s e p)
    | inr ((o, ok), q) ↦ (o, ok, q)
  ]

  inside-act :
      (s : System A) (i : ℕ) (t : Task A) (p : Place)
      → t.place ≡ p
      → inside p ≡ true
      → IsAnswered fsm t
      → act fsm s i t p ≢ none
  unfolding act run_handler drain unlock inside
  inside-act s i t submitted e a h = cc
  inside-act s i t locked e a h =
      let (o, ok, q) = handle_one-done s.obj t.event in
      let room = room_at_lock fsm t ok h e in ground arith
  inside-act s i t (draining ok) e a h = elim (Option-cases s.obj.next) [
    | inl n ↦ let room = room_at_unlock fsm t ok h e in ground arith
    | inr (e', n) ↦
        let (o, b, q) = handle_one-done (record s.obj { next = none }) e' in ground arith
  ]
  inside-act s i t (finished ok) e a h = cc

  waiting-act :
      (s : System A) (i : ℕ) (t : Task A) (p : Place)
      → s.slock ≡ false
      → inside p ≡ false
      → ((ok : Bool) → p ≢ finished ok)
      → act fsm s i t p ≢ none
  unfolding act lock inside
  waiting-act s i t submitted free a h = ground arith
  waiting-act s i t locked free a h = cc
  waiting-act s i t (draining ok) free a h = cc
  waiting-act s i t (finished ok) free a h = absurd (h ok refl)

-- No deadlock: where no handler and no callback panics, as long as a closure is not over, some
-- closure can take its next action; none waits for its error channel.
pub closures_go_on :
    {A : Type 0} (fsm : Fsm A) (first : State A) (s : System A) (i : ℕ) (t : Task A)
    → ((o : State A) (e : EventData A) → handle_one fsm o e ≢ panic)
    → Reach fsm first s
    → s.tasks i ≡ some t
    → ((ok : Bool) → t.place ≢ finished ok)
    → (j : ℕ) × (u : Task A) × (s.tasks j ≡ some u) × (act fsm s j u u.place ≢ none)
closures_go_on fsm first s i t safe r at_i going = elim (Bool-cases s.slock) [
  | inl taken ↦
      let (j, u, at_j, a) = inv.held taken in
      (j, u, at_j, inside-act fsm safe s j u u.place refl a (inv.answers j u at_j))
  | inr free ↦ (i, t, at_i, waiting-act fsm safe s i t t.place free (outside free) going)
]
  where
    inv : IsLocked fsm s
    inv = Reach-IsLocked fsm first s r

    outside : s.slock ≡ false → inside t.place ≡ false
    outside free = elim (Bool-cases (inside t.place)) [
      | inl a ↦ absurd (let b = inv.taken i t at_i a in cc)
      | inr b ↦ b
    ]
