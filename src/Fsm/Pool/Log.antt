-- ===== src/Fsm/Pool/Log.antt =====
-- The calls of one state object take effect one after another.
use mathlib.Core.List.Memᴰ.{Memᴰ, head, tail}
use central_unit.Base.{
  ℕ, ◌≡◌, ◌≢◌, refl, ap, inl, inr, Bool, true, false, List, [], ◌∷◌, ◌++◌, append_assoc, none, some,
  done, arith, Bool-cases, ◌==◌,
}
use central_unit.Fsm.{EventData, State, Fsm, handle_one}
use central_unit.Fsm.Pool.{
  Place, submitted, locked, draining, finished, Task, System, update, set_task, Step, send, go,
  Reach, start, later, Steps, here, onto,
}
use central_unit.Fsm.Pool.Change.{inside, Change, acquire, serve, onward, release, act-Change}
use central_unit.Fsm.Pool.Lock.{IsLocked, Reach-IsLocked}
use central_unit.Fsm.Pool.Serial.{
  Served, served, next_call, IsLogged, start-IsLogged, handle-Completes, onward-Completes,
  over-Completes, send-IsLogged,
}

module _ {A : Type 0} (fsm : Fsm A) (first : State A) where
  module _ (s s' : System A) (i : ℕ) (t : Task A) (log : List (Served A)) (lk : IsLocked fsm s)
      (inv : IsLogged fsm first s log) (at_i : s.tasks i ≡ some t) where
    -- A change of place of one closure that is not over keeps what the log says of the others.
    keeps_sound :
        (u : Task A) (p : Place)
        → t.place ≡ p
        → ((ok : Bool) → p ≢ finished ok)
        → s'.tasks ≡ update s.tasks i u
        → (x : Served A) → Memᴰ x log
        → (v : Task A) × (s'.tasks x.id ≡ some v)
          × (v.place ≡ finished x.accepted)
          × (v.event ≡ x.event)
    unfolding update
    keeps_sound u p e not_over w x m =
        let (v, h, q, r) = inv.sound x m in
        let other = not_over x.accepted in (v, rw w (ground (arith, e)), q, r)

    acquire-IsLogged :
        t.place ≡ submitted
        → s.slock ≡ false
        → s' ≡ set_task (record s { slock = true }) i (record t { place = locked })
        → IsLogged fsm first s' log
    unfolding set_task update inside
    acquire-IsLogged p q w = record {
      before = inv.before;
      serial = inv.serial;
      complete = λ j u ok h k. inv.complete j u ok (ground arith) k;
      sound =
          keeps_sound (record t { place = locked }) submitted p (λ ok. cc)
            (ap (λ (z : System A). z.tasks) w);
      at_rest = λ h. absurd (ground arith);
      at_lock = λ j u h k. ground (arith, inv.at_rest q);
      at_drain = λ j u ok h k. absurd (ground (arith, lk.taken j u));
    }

    serve-IsLogged :
        (o : State A) (ok : Bool) (sent : List Bool)
        → t.place ≡ locked
        → handle_one fsm s.obj t.event ≡ done (o, ok)
        → s' ≡ set_task (record s { obj = o }) i (record t { place = draining ok; answers = sent })
        → IsLogged fsm first s' log
    unfolding set_task update inside
    serve-IsLogged o ok sent p q w = record {
      before = inv.before;
      serial = inv.serial;
      complete = λ j u b h k. inv.complete j u b (ground arith) k;
      sound =
          keeps_sound (record t { place = draining ok; answers = sent }) locked p (λ b. cc)
            (ap (λ (z : System A). z.tasks) w);
      at_rest = λ h. absurd (ground (arith, lk.taken i t at_i));
      at_lock = λ j u h k. absurd (ground (arith, lk.owner i j t u));
      at_drain = λ j u b h k.
          let (same, ok_too, moved) : (u.event ≡ t.event) × (b ≡ ok) × (s'.obj ≡ o) =
            ground (arith, lk.owner i j t u) in
          rw (same, ok_too, moved)
            (handle-Completes fsm first inv.before o t.event ok (rw (← inv.at_lock i t at_i p) q));
    }

    onward-IsLogged :
        (o : State A) (ok b : Bool) (e : EventData A)
        → t.place ≡ draining ok
        → s.obj.next ≡ some e
        → handle_one fsm (record s.obj { next = none }) e ≡ done (o, b)
        → s' ≡ record s { obj = o }
        → IsLogged fsm first s' log
    unfolding inside
    onward-IsLogged o ok b e p q r w = rw w (record {
      before = inv.before;
      serial = inv.serial;
      complete = inv.complete;
      sound = inv.sound;
      at_rest = λ h. absurd (ground (arith, lk.taken i t at_i));
      at_lock = λ j u h k. absurd (ground (arith, lk.owner i j t u));
      at_drain = λ j u d h k.
          onward-Completes fsm first inv.before s.obj o u.event e d b (inv.at_drain j u d h k) q r;
    })

    release-IsLogged :
        (ok : Bool) (sent : List Bool)
        → t.place ≡ draining ok
        → s.obj.next ≡ none
        → s'
          ≡ set_task
              (record s { slock = false })
              i
              (record t { place = finished ok; answers = sent })
        → IsLogged fsm first s' (served i t ok ∷ log)
    unfolding set_task update inside
    release-IsLogged ok sent p q w =
        let (n, whole) =
          over-Completes fsm first inv.before s.obj t.event ok (inv.at_drain i t ok at_i p) q in
        record {
          before = s.obj;
          serial =
              next_call (served i t ok) n inv.serial
                (λ y m. let (v, h, k, r) = inv.sound y m in ground (arith, at_i)) whole;
          complete = λ j u b h k. elim (Bool-cases (j == i)) [
            | inl same ↦ head (let e : served j u b ≡ served i t ok = ground arith in e)
            | inr other ↦ tail (inv.complete j u b (ground arith) k)
          ];
          sound = λ x m. sound_after x m;
          at_rest = λ h. ground arith;
          at_lock = λ j u h k. ground (arith, lk.owner i j t u);
          at_drain = λ j u b h k. absurd (ground (arith, lk.owner i j t u));
        }
      where
        sound_after :
            (x : Served A)
            → Memᴰ x (served i t ok ∷ log)
            → (v : Task A) × (s'.tasks x.id ≡ some v)
              × (v.place ≡ finished x.accepted)
              × (v.event ≡ x.event)
        sound_after x (head e) = (
          record t { place = finished ok; answers = sent },
          ground arith,
          ground arith,
          ground arith,
        )
        sound_after x (tail m) =
            keeps_sound (record t { place = finished ok; answers = sent }) (draining ok) p (λ b. cc)
              (ap (λ (z : System A). z.tasks) w) x m

  -- The log after an action: the calls that it ends, and those before.
  Logged : System A → List (Served A) → Type 0
  Logged s log = (extra : List (Served A)) × IsLogged fsm first s (extra ++ log)

  Change-IsLogged :
      (s s' : System A) (i : ℕ) (t : Task A) (log : List (Served A))
      → IsLocked fsm s
      → IsLogged fsm first s log
      → s.tasks i ≡ some t
      → Change fsm s i t s'
      → Logged s' log
  unfolding Logged
  Change-IsLogged s s' i t log lk inv at_i (acquire p q w) =
      ([], acquire-IsLogged s s' i t log lk inv at_i p q w)
  Change-IsLogged s s' i t log lk inv at_i (serve o ok sent p q r w) =
      ([], serve-IsLogged s s' i t log lk inv at_i o ok sent p q w)
  Change-IsLogged s s' i t log lk inv at_i (onward o ok b e p q r w) =
      ([], onward-IsLogged s s' i t log lk inv at_i o ok b e p q r w)
  Change-IsLogged s s' i t log lk inv at_i (release ok sent p q r w) =
      (served i t ok ∷ [], release-IsLogged s s' i t log lk inv at_i ok sent p q w)

  Step-IsLogged :
      (s s' : System A) (log : List (Served A))
      → IsLocked fsm s
      → IsLogged fsm first s log
      → Step fsm s s'
      → Logged s' log
  unfolding Logged
  Step-IsLogged s s' log lk inv (send sync e) = ([], send-IsLogged fsm first s log sync e lk inv)
  Step-IsLogged s s' log lk inv (go i t at_i h) =
      Change-IsLogged s s' i t log lk inv at_i (act-Change fsm s s' i t t.place refl h)

  pub Reach-IsLogged :
      (s : System A) → Reach fsm first s → (log : List (Served A)) × IsLogged fsm first s log
  unfolding Logged
  Reach-IsLogged s start = ([], start-IsLogged fsm first)
  Reach-IsLogged s (later {s = r} w step) =
      let (log, inv) = Reach-IsLogged r w in
      let (extra, inv') = Step-IsLogged r s log (Reach-IsLocked fsm first r w) inv step in
      (extra ++ log, inv')

  -- The log only grows.
  pub Steps-IsLogged :
      (s s' : System A) (log : List (Served A))
      → Reach fsm first s
      → IsLogged fsm first s log
      → Steps fsm s s'
      → Reach fsm first s' × ((extra : List (Served A)) × IsLogged fsm first s' (extra ++ log))
  unfolding Logged
  Steps-IsLogged s s' log reached inv here = (reached, ([], inv))
  Steps-IsLogged s s' log reached inv (onto {r} w step) =
      let (at_r, (extra, inv_r)) = Steps-IsLogged s r log reached inv w in
      let (more, inv') =
        Step-IsLogged r s' (extra ++ log) (Reach-IsLocked fsm first r at_r) inv_r step in
      (later at_r step, (more ++ extra, rw (append_assoc more extra log) inv'))
