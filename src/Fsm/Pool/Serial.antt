-- ===== src/Fsm/Pool/Serial.antt =====
-- Concurrent calls on one state object against calls one after another.
use mathlib.Core.List.Memᴰ.{Memᴰ}
use central_unit.Base.{ℕ, suc, ◌≡◌, ◌≢◌, refl, Bool, false, List, [], ◌∷◌, none, some, done, arith}
use central_unit.Fsm.{EventData, State, Fsm, handle_one, process_next, sync_send_event}
use central_unit.Fsm.Pool.{
  locked, draining, finished, Task, System, update, new_system, set_task, handle_event,
}
use central_unit.Fsm.Pool.Lock.{IsLocked}

-- A call that is over: its number, its event, and its answer.
pub record Served (A : Type 0) : Type 0 where
  pub id : ℕ
  pub event : EventData A
  pub accepted : Bool

abbrev pub served : {A : Type 0} → ℕ → Task A → Bool → Served A
served i t ok = record { id = i; event = t.event; accepted = ok }

module _ {A : Type 0} (fsm : Fsm A) (first : State A) where
  -- `SyncSendEvent` called for the events of a list one after another, the latest at its head,
  -- each call once.
  pub data Serial : List (Served A) → State A → Type 0 where
    untouched : Serial [] first
    next_call :
        {log : List (Served A)} {s s' : State A} (x : Served A) (fuel : ℕ)
        → Serial log s
        → ((y : Served A) → Memᴰ y log → y.id ≢ x.id)
        → sync_send_event fuel fsm s x.event ≡ some (done (s', x.accepted))
        → Serial (x ∷ log) s'

  -- The rest of the loop over next events completes the call of `e` on `before`.
  pub Completes : State A → EventData A → Bool → State A → Type 0
  Completes before e ok obj =
      (fuel : ℕ) (r : State A)
      → process_next fuel fsm obj ≡ some (done r)
      → (n : ℕ) × (sync_send_event n fsm before e ≡ some (done (r, ok)))

  -- The log of the closures that are over, and what the one inside has done so far.
  pub record IsLogged (s : System A) (log : List (Served A)) : Type 0 where
    pub before : State A
    pub serial : Serial log before
    pub complete :
        (i : ℕ) (t : Task A) (ok : Bool)
        → s.tasks i ≡ some t
        → t.place ≡ finished ok
        → Memᴰ (served i t ok) log
    pub sound :
        (x : Served A)
        → Memᴰ x log
        → (t : Task A) × (s.tasks x.id ≡ some t)
          × (t.place ≡ finished x.accepted)
          × (t.event ≡ x.event)
    pub at_rest : s.slock ≡ false → s.obj ≡ before
    pub at_lock : (i : ℕ) (t : Task A) → s.tasks i ≡ some t → t.place ≡ locked → s.obj ≡ before
    pub at_drain :
        (i : ℕ) (t : Task A) (ok : Bool)
        → s.tasks i ≡ some t
        → t.place ≡ draining ok
        → Completes before t.event ok s.obj

  pub start-IsLogged : IsLogged (new_system first) []
  start-IsLogged = record {
    before = first;
    serial = untouched;
    complete = λ i t ok h p. cc;
    sound = λ x m. elim m [ ];
    at_rest = λ h. refl;
    at_lock = λ i t h p. cc;
    at_drain = λ i t ok h p. cc;
  }

  pub handle-Completes :
      (before o : State A) (e : EventData A) (ok : Bool)
      → handle_one fsm before e ≡ done (o, ok)
      → Completes before e ok o
  unfolding Completes sync_send_event
  handle-Completes before o e ok h fuel r k = (fuel, ground arith)

  pub onward-Completes :
      (before obj o : State A) (e e' : EventData A) (ok b : Bool)
      → Completes before e ok obj
      → obj.next ≡ some e'
      → handle_one fsm (record obj { next = none }) e' ≡ done (o, b)
      → Completes before e ok o
  unfolding Completes process_next
  onward-Completes before obj o e e' ok b c n h fuel r k = c (suc fuel) r (ground arith)

  pub over-Completes :
      (before obj : State A) (e : EventData A) (ok : Bool)
      → Completes before e ok obj
      → obj.next ≡ none
      → (n : ℕ) × (sync_send_event n fsm before e ≡ some (done (obj, ok)))
  unfolding Completes process_next
  over-Completes before obj e ok c n = c 1 obj (ground arith)

  pub send-IsLogged :
      (s : System A) (log : List (Served A)) (sync : Bool) (e : EventData A)
      → IsLocked fsm s
      → IsLogged s log
      → IsLogged (handle_event fsm sync e s) log
  unfolding handle_event set_task update
  send-IsLogged s log sync e lk inv = record {
    before = inv.before;
    serial = inv.serial;
    complete = λ i t ok h p. inv.complete i t ok (ground arith) p;
    sound = λ x m. let (t, h, p, q) = inv.sound x m in (t, ground (arith, lk.fresh x.id), p, q);
    at_rest = inv.at_rest;
    at_lock = λ i t h p. inv.at_lock i t (ground arith) p;
    at_drain = λ i t ok h p. inv.at_drain i t ok (ground arith) p;
  }
