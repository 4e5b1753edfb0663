-- ===== src/Fsm/Reach.antt =====
-- The current state moves along the transitions only.
use central_unit.Base.{
  ℕ, zero, suc, ◌≡◌, refl, sym, ap, ◌∙◌, ◌⊎◌, Bool, List, Option, none, some, done, arith,
  Run-cases, Bool-cases, Option-cases, inl, inr,
}
use central_unit.Fsm.{
  EventType, entry_event, exit_event, EventData, State, Transition, Handler, call_if, Fsm,
  next_state, has_event, callback, follow, handle_one, process_next, sync_send_event,
}

-- `Walk ts s t`: a path of transitions leads from s to t.
pub data Walk (ts : List Transition) (s : ℕ) : ℕ → Type 0 where
  stay : Walk ts s s
  go : {t u : ℕ} (e : EventType) → Walk ts s t → next_state ts t e ≡ some u → Walk ts s u

Walk-trans : {ts : List Transition} {s t u : ℕ} → Walk ts s t → Walk ts t u → Walk ts s u
Walk-trans w stay = w
Walk-trans w (go e v h) = go e (Walk-trans w v) h

module _ {A : Type 0} (fsm : Fsm A) where
  -- No callback changes the current state itself (by `ForceSetState`).
  pub record KeepsState : Type 0 where
    pub handler_keeps :
        (f : Handler A) (s : State A) (e : EventData A)
        → fsm.handler ≡ some f
        → (f s e).current ≡ s.current
    pub callback_keeps :
        (k : ℕ) (f : Handler A) (s : State A) (e : EventData A)
        → callback fsm.callbacks k ≡ some f
        → (f s e).current ≡ s.current

  module _ (keeps : KeepsState) where
    open keeps use {handler_keeps, callback_keeps}

    call_if_keeps :
        (k : ℕ) (s : State A) (e : EventData A)
        → (call_if (callback fsm.callbacks k) s e).current ≡ s.current
    call_if_keeps k s e = called (callback fsm.callbacks k) refl
      where
        called :
            (o : Option (Handler A))
            → callback fsm.callbacks k ≡ o
            → (call_if o s e).current ≡ s.current
        called none h = refl
        called (some f) h = callback_keeps k f s e h

    follow-current :
        (s s' : State A) (e : EventData A) (t : ℕ) → follow fsm s e t ≡ done s' → s'.current ≡ t
    unfolding follow
    follow-current s s' e t h = elim (Option-cases (callback fsm.callbacks s.current)) [
      | inl n ↦ ground (arith, call_if_keeps s.current s e)
      | inr (f, k) ↦
          let s2 = f (f s e) (record e { ev_type = exit_event }) in
          ground (
            arith,
            call_if_keeps s.current s e,
            call_if_keeps t (record s2 { current = t }) (record e { ev_type = entry_event }),
          )
    ]

    -- An accepted event either changes nothing or moves along one transition.
    handle_one_cases :
        (s s' : State A) (e : EventData A) (b : Bool)
        → handle_one fsm s e ≡ done (s', b)
        → (s'.current ≡ s.current)
          ⊎ (next_state fsm.transitions s.current e.ev_type ≡ some s'.current)
    unfolding handle_one
    handle_one_cases s s' e b h = elim (Bool-cases (has_event fsm.events e.ev_type)) [
      | inl listed ↦ elim (Option-cases fsm.handler) [
        | inl n ↦ absurd (ground arith)
        | inr (f, k) ↦ inl (ground (arith, handler_keeps f s e k))
      ]
      | inr other ↦ elim (Option-cases (next_state fsm.transitions s.current e.ev_type)) [
        | inl n ↦ inl (ground arith)
        | inr (t, k) ↦ inr (k ∙ ap some (sym (follow-current s s' e t (ground arith))))
      ]
    ]

    handle_one-Walk :
        (s s' : State A) (e : EventData A) (b : Bool)
        → handle_one fsm s e ≡ done (s', b)
        → Walk fsm.transitions s.current s'.current
    handle_one-Walk s s' e b h = elim (handle_one_cases s s' e b h) [
      | inl same ↦ rw same stay
      | inr moved ↦ go e.ev_type stay moved
    ]

    process_next-Walk :
        (fuel : ℕ) (s s' : State A)
        → process_next fuel fsm s ≡ some (done s')
        → Walk fsm.transitions s.current s'.current
    unfolding process_next
    process_next-Walk zero s s' h = cc
    process_next-Walk (suc fuel) s s' h = elim (Option-cases s.next) [
      | inl n ↦ rw (let e : s'.current ≡ s.current = ground arith in e) stay
      | inr (e, k) ↦ elim (Run-cases (handle_one fsm (record s { next = none }) e)) [
        | inl p ↦ absurd (ground arith)
        | inr ((s1, b), q) ↦
            Walk-trans (handle_one-Walk (record s { next = none }) s1 e b q)
              (process_next-Walk fuel s1 s' (ground arith))
      ]
    ]

-- Where no callback forces the state, an event and all the events that it sets off take the
-- current state along a path of transitions.
pub sync_send_event-Walk :
    {A : Type 0} (fsm : Fsm A) (fuel : ℕ) (s s' : State A) (e : EventData A) (accepted : Bool)
    → KeepsState fsm
    → sync_send_event fuel fsm s e ≡ some (done (s', accepted))
    → Walk fsm.transitions s.current s'.current
unfolding sync_send_event
sync_send_event-Walk fsm fuel s s' e accepted keeps h = elim (Run-cases (handle_one fsm s e)) [
  | inl p ↦ absurd (ground arith)
  | inr ((s1, b), q) ↦ elim (Option-cases (process_next fuel fsm s1)) [
    | inl n ↦ absurd (ground arith)
    | inr (r, k) ↦
        Walk-trans (handle_one-Walk fsm keeps s s1 e b q)
          (process_next-Walk fsm keeps fuel s1 s' (k ∙ ap some (ground arith)))
  ]
]
