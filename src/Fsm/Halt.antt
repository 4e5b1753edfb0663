-- ===== src/Fsm/Halt.antt =====
-- The loop over next events ends where the events that callbacks set off run down a measure.
use central_unit.Base.{
  ℕ, zero, suc, ◌+◌, ◌<◌, ◌≡◌, ◌≢◌, ◌⊎◌, Bool, none, some, done, arith, Run-cases, Option-cases,
  inl, inr,
}
use central_unit.Fsm.{EventData, State, Fsm, handle_one, process_next}

-- If handling a state's next event leaves no next event or a state of smaller rank, then
-- `processNextEvent` ends: with fuel above the rank plus one it never runs out.
pub process_next_halts :
    {A : Type 0} (fsm : Fsm A) (rank : State A → ℕ)
    → ((s s' : State A) (e : EventData A) (b : Bool)
        → s.next ≡ some e
        → handle_one fsm (record s { next = none }) e ≡ done (s', b)
        → (s'.next ≡ none) ⊎ (rank s' < rank s))
    → (fuel : ℕ) (s : State A) → rank s + 1 < fuel
    → process_next fuel fsm s ≢ none
unfolding process_next
process_next_halts fsm rank falls zero s h = absurd (omega arith)
process_next_halts fsm rank falls (suc zero) s h = absurd (omega arith)
process_next_halts fsm rank falls (suc (suc fuel)) s h = elim (Option-cases s.next) [
  | inl n ↦ ground arith
  | inr (e, k) ↦ elim (Run-cases (handle_one fsm (record s { next = none }) e)) [
    | inl p ↦ ground arith
    | inr ((s1, b), q) ↦ elim (falls s s1 e b k q) [
      | inl n ↦ ground arith
      | inr less ↦
          let rest = process_next_halts fsm rank falls (suc fuel) s1 (omega arith) in ground arith
    ]
  ]
]
