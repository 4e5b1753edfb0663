-- ===== src/Fsm/Safety.antt =====
-- What the checks of `NewFsm` buy: no nil callback is called, and no event has two meanings.
use central_unit.Base.{
  ℕ, ◌≡◌, ◌≢◌, ◌↔◌, refl, Bool, true, false, List, [], ◌∷◌, All, none, some, done, panic, arith,
  ◌>>=◌, >>=-eq-panic, Bool-cases, Option-cases, inl, inr,
}
use central_unit.Fsm.{
  EventType, entry_event, exit_event, named, same_event, EventData, State, Transition, Handler,
  Callback, Options, Fsm, next_state, known_event, has_event, disjoint, has_key, callback,
  states_known, new_fsm, follow, transit, handle_one,
}

pub same_event-eq : (x y : EventType) → same_event x y ≡ true → x ≡ y
same_event-eq entry_event entry_event h = refl
same_event-eq exit_event exit_event h = refl
same_event-eq (named a) (named b) h = ground arith
same_event-eq _ _ h = cc

pub same_event_refl : (x : EventType) → same_event x x ≡ true
same_event_refl entry_event = refl
same_event_refl exit_event = refl
same_event_refl (named a) = ground arith

next_state-unknown :
    (ts : List Transition) (s : ℕ) (e : EventType)
    → known_event ts e ≡ false
    → next_state ts s e ≡ none
unfolding known_event next_state
next_state-unknown [] s e h = refl
next_state-unknown (t ∷ ts) s e h = ground (arith, next_state-unknown ts s e)

known_event-disjoint :
    (ts : List Transition) (es : List EventType) (e : EventType)
    → disjoint ts es ≡ true
    → has_event es e ≡ true
    → known_event ts e ≡ false
unfolding disjoint has_event
known_event-disjoint ts [] e d h = cc
known_event-disjoint ts (x ∷ es) e d h =
    ground (arith, known_event-disjoint ts es e, same_event-eq x e)

module _ {A : Type 0} where
  -- Every key of the table has a function.
  abbrev pub IsFilled : List (Callback A) → Type 0
  IsFilled = All (λ c. c.function ≢ none)

  callback-has_key :
      (cs : List (Callback A)) (s : ℕ) → IsFilled cs → has_key cs s ≡ true → callback cs s ≢ none
  unfolding has_key callback
  callback-has_key [] s f h = cc
  callback-has_key (c ∷ cs) s f h = ground (arith, callback-has_key cs s f.1, f.0)

  has_key-next_state :
      (ts : List Transition) (cs : List (Callback A)) (s : ℕ) (e : EventType) (t : ℕ)
      → states_known ts cs ≡ true
      → next_state ts s e ≡ some t
      → has_key cs s ≡ true
  unfolding states_known next_state
  has_key-next_state [] cs s e t k h = cc
  has_key-next_state (u ∷ ts) cs s e t k h = ground (arith, has_key-next_state ts cs s e t)

  follow_safe :
      (fsm : Fsm A) (s : State A) (e : EventData A) (t : ℕ)
      → callback fsm.callbacks s.current ≢ none
      → follow fsm s e t ≢ panic
  unfolding follow
  follow_safe fsm s e t h = ground arith

  record Built (opts : Options A) (fsm : Fsm A) : Type 0 where
    known : states_known opts.transitions opts.callbacks ≡ true
    apart : disjoint opts.transitions opts.non_transitional ≡ true
    same_transitions : fsm.transitions ≡ opts.transitions
    same_callbacks : fsm.callbacks ≡ opts.callbacks
    same_events : fsm.events ≡ opts.non_transitional
    same_handler : fsm.handler ≡ opts.generic_callback

  new_fsm-Built : (opts : Options A) (fsm : Fsm A) → new_fsm opts ≡ done fsm → Built opts fsm
  unfolding new_fsm
  new_fsm-Built opts fsm h = record {
    known = ground arith;
    apart = ground arith;
    same_transitions = ground arith;
    same_callbacks = ground arith;
    same_events = ground arith;
    same_handler = ground arith;
  }

  transit_safe :
      (fsm : Fsm A) (s : State A) (e : EventData A)
      → ((t : ℕ)
          → next_state fsm.transitions s.current e.ev_type ≡ some t
          → callback fsm.callbacks s.current ≢ none)
      → transit fsm s e ≢ panic
  unfolding transit
  transit_safe fsm s e h p = elim (Option-cases (next_state fsm.transitions s.current e.ev_type)) [
    | inl n ↦ cc (rw (n, transit) at p)
    | inr (t, k) ↦ follow_safe fsm s e t (h t k) (follow-panic t (rw (k, transit) at p))
  ]
    where
      follow-panic :
          (t : ℕ)
          → ◌>>=◌ {B = State A × Bool} (follow fsm s e t) (λ s'. done (s', true)) ≡ panic
          → follow fsm s e t ≡ panic
      follow-panic t q = >>=-eq-panic (follow fsm s e t) (λ s'. (s', true)) q

-- In a machine that `NewFsm` returns, all of whose callbacks by state are functions, handling an event
-- panics exactly where the event is in the non-transitional list and the generic callback is nil:
-- `NewFsm` checks that every state with a transition has a callback, and does not check the generic
-- callback.
pub new_fsm_panic_iff :
    {A : Type 0} (opts : Options A) (fsm : Fsm A) (s : State A) (e : EventData A)
    → new_fsm opts ≡ done fsm
    → IsFilled opts.callbacks
    → (handle_one fsm s e ≡ panic)
      ↔ ((has_event opts.non_transitional e.ev_type ≡ true) × (opts.generic_callback ≡ none))
unfolding handle_one
new_fsm_panic_iff {A} opts fsm s e made filled =
    elim (Bool-cases (has_event fsm.events e.ev_type)) [
      | inl listed ↦ ground (arith, b.same_events, b.same_handler)
      | inr other ↦
          (λ p. absurd (safe (rw other at p)), λ (listed, nil). cc (listed, other, b.same_events))
    ]
  where
    b : Built opts fsm
    b = new_fsm-Built opts fsm made

    safe : transit fsm s e ≢ panic
    safe = transit_safe fsm s e λ t k. rw b.same_callbacks (
        callback-has_key opts.callbacks s.current filled (
          has_key-next_state opts.transitions opts.callbacks s.current e.ev_type t b.known
            (rw b.same_transitions at k)))

-- In a machine that `NewFsm` returns, an event of the non-transitional list has no transition from
-- any state: it is handled by the generic callback, which alone decides the new state object.
pub new_fsm_exclusive :
    {A : Type 0} (opts : Options A) (fsm : Fsm A) (s : State A) (e : EventData A) (f : Handler A)
    → new_fsm opts ≡ done fsm
    → opts.generic_callback ≡ some f
    → has_event opts.non_transitional e.ev_type ≡ true
    → (next_state fsm.transitions s.current e.ev_type ≡ none)
      × (handle_one fsm s e ≡ done (f s e, true))
unfolding handle_one
new_fsm_exclusive opts fsm s e f made given listed = (
  rw b.same_transitions (
      next_state-unknown opts.transitions s.current e.ev_type
        (known_event-disjoint opts.transitions opts.non_transitional e.ev_type b.apart listed)),
  rw (b.same_events, listed, b.same_handler, given),
)
  where
    b : Built opts fsm
    b = new_fsm-Built opts fsm made
