-- ===== src/Fsm/Pool/Lock.antt =====
-- Who holds the lock of a state object, and what is in the error channels.
use central_unit.Base.{
  ℕ, ◌≤◌, ◌≡◌, ◌≢◌, refl, Bool, true, ◌&&◌, not, List, [], ◌∷◌, none, some, if◌then◌else◌, done,
  arith,
}
use central_unit.Fsm.{EventData, State, Fsm, has_event, handle_one}
use central_unit.Fsm.Pool.{
  Place, submitted, locked, draining, finished, Task, System, put, update, new_system, set_task,
  listed, handle_event, Step, send, go, Reach, start, later,
}
use central_unit.Fsm.Pool.Change.{inside, Change, acquire, serve, onward, release, act-Change}

-- Whether the event was accepted, true as long as that is open.
pub verdict : Place → Bool
verdict submitted = true
verdict locked = true
verdict (draining ok) = ok
verdict (finished ok) = ok

module _ {A : Type 0} (fsm : Fsm A) where
  -- What the error channel of a call has been given, by the place of its closure.
  pub expected : Task A → Place → List Bool
  expected t submitted = if listed fsm t && not t.sync then true ∷ [] else []
  expected t locked = if listed fsm t && not t.sync then true ∷ [] else []
  expected t (draining ok) = if listed fsm t && t.sync then [] else ok ∷ []
  expected t (finished ok) = ok ∷ []

  pub record IsAnswered (t : Task A) : Type 0 where
    pub answered : t.answers ≡ expected t t.place
    pub accepted : listed fsm t ≡ true → verdict t.place ≡ true

  -- The holder of the lock is the only closure inside, and there is one while the lock is taken.
  pub record IsLocked (s : System A) : Type 0 where
    pub fresh : (i : ℕ) → s.count ≤ i → s.tasks i ≡ none
    pub answers : (i : ℕ) (t : Task A) → s.tasks i ≡ some t → IsAnswered t
    pub owner :
        (i j : ℕ) (t u : Task A)
        → s.tasks i ≡ some t
        → s.tasks j ≡ some u
        → inside t.place ≡ true
        → inside u.place ≡ true
        → i ≡ j
    pub taken : (i : ℕ) (t : Task A) → s.tasks i ≡ some t → inside t.place ≡ true → s.slock ≡ true
    pub held :
        s.slock ≡ true → (i : ℕ) × (t : Task A) × (s.tasks i ≡ some t) × (inside t.place ≡ true)

  start-IsLocked : (first : State A) → IsLocked (new_system first)
  start-IsLocked first = record {
    fresh = λ i h. refl;
    answers = λ i t h. cc;
    owner = λ i j t u h k a b. cc;
    taken = λ i t h a. cc;
    held = λ h. cc;
  }

  listed-accepts :
      (s o : State A) (e : EventData A) (ok : Bool)
      → has_event fsm.events e.ev_type ≡ true
      → handle_one fsm s e ≡ done (o, ok)
      → ok ≡ true
  unfolding handle_one
  listed-accepts s o e ok h k = ground arith

  send-IsLocked :
      (s : System A) (sync : Bool) (e : EventData A)
      → IsLocked s
      → IsLocked (handle_event fsm sync e s)
  unfolding handle_event set_task update inside expected listed verdict
  send-IsLocked s sync e inv = record {
    fresh = λ i h. ground (arith, inv.fresh i);
    answers = λ i t h. ground (arith, inv.answers i t);
    owner = λ i j t u h k a b. ground (arith, inv.owner i j t u);
    taken = λ i t h a. ground (arith, inv.taken i t);
    held = λ h. let (i, t, k, a) = inv.held h in (i, t, ground (arith, inv.fresh i), a);
  }

  Change-fresh :
      (s s' : System A) (i : ℕ) (t : Task A)
      → IsLocked s
      → s.tasks i ≡ some t
      → Change fsm s i t s'
      → (j : ℕ) → s'.count ≤ j
      → s'.tasks j ≡ none
  unfolding set_task update
  Change-fresh s s' i t inv at_i (acquire p q w) j h =
      rw (w, inv.fresh j (rw w at h)) (ground (arith, inv.fresh i))
  Change-fresh s s' i t inv at_i (serve o ok sent p q r w) j h =
      ground (arith, inv.fresh j, inv.fresh i)
  Change-fresh s s' i t inv at_i (onward o ok b e p q r w) j h =
      ground (arith, inv.fresh j, inv.fresh i)
  Change-fresh s s' i t inv at_i (release ok sent p q r w) j h =
      ground (arith, inv.fresh j, inv.fresh i)

  Change-answers :
      (s s' : System A) (i : ℕ) (t : Task A)
      → IsLocked s
      → s.tasks i ≡ some t
      → Change fsm s i t s'
      → (j : ℕ) (u : Task A) → s'.tasks j ≡ some u
      → IsAnswered u
  unfolding set_task update expected listed put verdict
  Change-answers s s' i t inv at_i (acquire p q w) j u h =
      let old = inv.answers i t at_i in ground (arith, inv.answers j u)
  Change-answers s s' i t inv at_i (serve o ok sent p q r w) j u h =
      let old = inv.answers i t at_i in
      ground (arith, inv.answers j u, listed-accepts s.obj o t.event ok)
  Change-answers s s' i t inv at_i (onward o ok b e p q r w) j u h = inv.answers j u (ground arith)
  Change-answers s s' i t inv at_i (release ok sent p q r w) j u h =
      let old = inv.answers i t at_i in ground (arith, inv.answers j u)

  Change-taken :
      (s s' : System A) (i : ℕ) (t : Task A)
      → IsLocked s
      → s.tasks i ≡ some t
      → Change fsm s i t s'
      → (j : ℕ) (u : Task A) → s'.tasks j ≡ some u
      → inside u.place ≡ true
      → s'.slock ≡ true
  unfolding set_task update inside
  Change-taken s s' i t inv at_i (acquire p q w) j u h a = ground arith
  Change-taken s s' i t inv at_i (serve o ok sent p q r w) j u h a =
      let here = inv.taken i t at_i in ground (arith, inv.taken j u)
  Change-taken s s' i t inv at_i (onward o ok b e p q r w) j u h a = ground (arith, inv.taken j u)
  Change-taken s s' i t inv at_i (release ok sent p q r w) j u h a =
      let alone = inv.owner i j t u at_i in ground arith

  Change-owner :
      (s s' : System A) (i : ℕ) (t : Task A)
      → IsLocked s
      → s.tasks i ≡ some t
      → Change fsm s i t s'
      → (j k : ℕ) (u v : Task A) → s'.tasks j ≡ some u
      → s'.tasks k ≡ some v
      → inside u.place ≡ true
      → inside v.place ≡ true
      → j ≡ k
  unfolding set_task update inside
  Change-owner s s' i t inv at_i (acquire p q w) j k u v h l a b =
      ground (arith, inv.taken j u, inv.taken k v)
  Change-owner s s' i t inv at_i (serve o ok sent p q r w) j k u v h l a b =
      ground (arith, inv.owner j k u v, inv.owner i k t v at_i, inv.owner j i u t)
  Change-owner s s' i t inv at_i (onward o ok d e p q r w) j k u v h l a b =
      inv.owner j k u v (ground arith) (ground arith) a b
  Change-owner s s' i t inv at_i (release ok sent p q r w) j k u v h l a b =
      ground (arith, inv.owner j k u v, inv.owner i k t v at_i, inv.owner j i u t)

  Change-held :
      (s s' : System A) (i : ℕ) (t : Task A)
      → IsLocked s
      → s.tasks i ≡ some t
      → Change fsm s i t s'
      → s'.slock ≡ true
      → (j : ℕ) × (u : Task A) × (s'.tasks j ≡ some u) × (inside u.place ≡ true)
  unfolding set_task update inside
  Change-held s s' i t inv at_i (acquire p q w) h =
      (i, record t { place = locked }, ground arith, refl)
  Change-held s s' i t inv at_i (serve o ok sent p q r w) h =
      (i, record t { place = draining ok; answers = sent }, ground arith, refl)
  Change-held s s' i t inv at_i (onward o ok b e p q r w) h = (i, t, ground arith, ground arith)
  Change-held s s' i t inv at_i (release ok sent p q r w) h = absurd (ground arith)

  Step-IsLocked : (s s' : System A) → IsLocked s → Step fsm s s' → IsLocked s'
  Step-IsLocked s s' inv (send sync e) = send-IsLocked s sync e inv
  Step-IsLocked s s' inv (go i t at_i h) =
      let c = act-Change fsm s s' i t t.place refl h in
      record {
        fresh = Change-fresh s s' i t inv at_i c;
        answers = Change-answers s s' i t inv at_i c;
        owner = Change-owner s s' i t inv at_i c;
        taken = Change-taken s s' i t inv at_i c;
        held = Change-held s s' i t inv at_i c;
      }

  pub Reach-IsLocked : (first : State A) (s : System A) → Reach fsm first s → IsLocked s
  Reach-IsLocked first s start = start-IsLocked first
  Reach-IsLocked first s (later {s = r} w step) = Step-IsLocked r s (Reach-IsLocked first r w) step

  -- The error channel of a closure that is over has been given its answer, and nothing else.
  pub answered-finished :
      (t : Task A) (ok : Bool) → IsAnswered t → t.place ≡ finished ok → t.answers ≡ ok ∷ []
  unfolding expected
  answered-finished t ok h p = ground (arith, h.answered)

  -- A closure that has the lock and no answer yet can put it into the channel.
  pub room_at_lock :
      (t : Task A) (ok : Bool)
      → IsAnswered t
      → t.place ≡ locked
      → (if listed fsm t then some t.answers else put t.answers ok) ≢ none
  unfolding expected put
  room_at_lock t ok h p = ground (arith, h.answered)

  pub room_at_unlock :
      (t : Task A) (ok : Bool)
      → IsAnswered t
      → t.place ≡ draining ok
      → (if listed fsm t && t.sync then put t.answers true else some t.answers) ≢ none
  unfolding expected put
  room_at_unlock t ok h p = ground (arith, h.answered)
