-- ===== src/Fsm/Pool/Linear.antt =====
-- Concurrent calls on one state object are linearizable.
use mathlib.Core.List.Memᴰ.{Memᴰ}
use central_unit.Base.{ℕ, ◌≡◌, Bool, false, List, [], ◌∷◌, ◌++◌, some}
use central_unit.Fsm.{State, Fsm}
use central_unit.Fsm.Pool.{finished, Task, System, Reach, Steps}
use central_unit.Fsm.Pool.Lock.{IsLocked, Reach-IsLocked, answered-finished}
use central_unit.Fsm.Pool.Serial.{Served, served, Serial, IsLogged}
use central_unit.Fsm.Pool.Log.{Reach-IsLogged, Steps-IsLogged}

-- The log lists the calls that are over, with their events, and the answer in the log is the one
-- value that the error channel of the call was given.
pub record IsLogOf {A : Type 0} (s : System A) (log : List (Served A)) : Type 0 where
  pub complete :
      (i : ℕ) (t : Task A) (ok : Bool)
      → s.tasks i ≡ some t
      → t.place ≡ finished ok
      → Memᴰ (served i t ok) log × (t.answers ≡ ok ∷ [])
  pub sound :
      (x : Served A)
      → Memᴰ x log
      → (t : Task A) × (s.tasks x.id ≡ some t)
        × (t.place ≡ finished x.accepted)
        × (t.event ≡ x.event)

logged-IsLogOf :
    {A : Type 0} (fsm : Fsm A) (first : State A) (s : System A) (log : List (Served A))
    → IsLocked fsm s
    → IsLogged fsm first s log
    → IsLogOf s log
logged-IsLogOf fsm first s log lk inv = record {
  complete =
      λ i t ok h p. (inv.complete i t ok h p, answered-finished fsm t ok (lk.answers i t h) p);
  sound = inv.sound;
}

Serial-congr :
    {A : Type 0} (fsm : Fsm A) (first : State A) (log : List (Served A)) (a b : State A)
    → a ≡ b
    → Serial fsm first log b
    → Serial fsm first log a
Serial-congr fsm first log a b e h = rw e h

-- Whatever calls of `SendEvent` and `SyncSendEvent` are made on a state object, and in whatever order
-- the pool runs them: while no closure holds the lock, the state object is what the calls that are
-- over make of it one after another, each once and with nothing in between, and the error channel
-- of each was given one value, the answer of that sequence. The calls that were over at any earlier
-- moment come before all others in that sequence, in the order that they had then.
pub Steps-Serial :
    {A : Type 0} (fsm : Fsm A) (first : State A) (s s' : System A)
    → Reach fsm first s
    → Steps fsm s s'
    → s'.slock ≡ false
    → (earlier extra : List (Served A)) × IsLogOf s earlier
      × IsLogOf s' (extra ++ earlier)
      × Serial fsm first (extra ++ earlier) s'.obj
Steps-Serial fsm first s s' reached w free =
    let (log, inv) = Reach-IsLogged fsm first s reached in
    let (reached', (extra, inv')) = Steps-IsLogged fsm first s s' log reached inv w in
    (
      log,
      extra,
      logged-IsLogOf fsm first s log (Reach-IsLocked fsm first s reached) inv,
      logged-IsLogOf fsm first s' (extra ++ log) (Reach-IsLocked fsm first s' reached') inv',
      Serial-congr fsm first (extra ++ log) s'.obj inv'.before (inv'.at_rest free) inv'.serial,
    )
