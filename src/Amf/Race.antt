-- ===== src/Amf/Race.antt =====
-- `AddedPlmn` of internal/context/amfcontext/amfcontext.go in two goroutines at once, statement by
-- statement: `dispatch` runs in a goroutine for each NGAP message, so two NG Setup Responses share
-- the list and its counter with no lock. `a` and `b` are the elements that `ConvertMccMnc` gives. A
-- pointer into the list is an index; with one call in each goroutine no call walks past
-- a node that the other has unlinked.
use central_unit.Base.{
  ℕ, zero, suc, ◌+◌, ◌≡◌, ◌≢◌, refl, ap, List, [], ◌∷◌, ◌++◌, append-nil, append_assoc, take,
  take-append, true, length, length-append, Option, none, some, ◌==◌, if◌then◌else◌, arith,
}
use central_unit.Amf.{Plmn}

-- `walking left mov`: so many rounds of the loop are left. `linking`: the test of `mov.Next` for nil
-- has passed. `counted n`: `LenPlmn++` has read n.
pub data Place : Type 0 where
  entered first_element : Place
  walking linking : (left mov : ℕ) → Place
  counting finished : Place
  counted : ℕ → Place

pub record Shared : Type 0 where
  pub plmns : List Plmn
  pub len_plmn : ℕ

-- The next statement; none is a nil dereference, or the end.
unfoldable pub advance : Place → Plmn → Shared → Option (Place × Shared)
advance entered new s =
    if s.len_plmn == 0 then some (first_element, s) else some (walking s.len_plmn 0, s)
advance first_element new s = some (counting, record s { plmns = new ∷ [] })
advance (walking zero mov) new s = some (counting, s)
advance (walking (suc left) mov) new s =
    if suc mov == length s.plmns
    then some (linking left mov, s)
    else if length s.plmns == 0
    then none
    else some (walking left (suc mov), s)
advance (linking left mov) new s =
    some (walking left mov, record s { plmns = take (suc mov) s.plmns ++ new ∷ [] })
advance counting new s = some (counted s.len_plmn, s)
advance (counted n) new s = some (finished, record s { len_plmn = n + 1 })
advance finished new s = none

pub record Race : Type 0 where
  pub shared : Shared
  pub place_a : Place
  pub place_b : Place

-- Both calls at their start.
abbrev pub both_entered : List Plmn → Race
both_entered plmns = record {
  shared = record { plmns = plmns; len_plmn = length plmns };
  place_a = entered;
  place_b = entered;
}

module _ (a b : Plmn) where
  pub data RaceStep (r : Race) : Race → Type 0 where
    by_a :
        {p : Place} {s : Shared}
        → advance r.place_a a r.shared ≡ some (p, s)
        → RaceStep r (record r { shared = s; place_a = p })
    by_b :
        {p : Place} {s : Shared}
        → advance r.place_b b r.shared ≡ some (p, s)
        → RaceStep r (record r { shared = s; place_b = p })

  pub data Racing (r : Race) : Race → Type 0 where
    here : Racing r r
    onto : {q t : Race} → Racing r q → RaceStep q t → Racing r t

-- One goroutine by itself.
data Alone (new : Plmn) (p : Place) (s : Shared) : Place → Shared → Type 0 where
  still : Alone new p s p s
  more :
      {q t : Place} {u v : Shared}
      → Alone new p s q u
      → advance q new u ≡ some (t, v)
      → Alone new p s t v

Alone-trans :
    {new : Plmn} {p q : Place} {s u : Shared} {t : Place} {v : Shared}
    → Alone new p s q u
    → Alone new q u t v
    → Alone new p s t v
Alone-trans w still = w
Alone-trans w (more k e) = more (Alone-trans w k) e

module _ {a b : Plmn} where
  lift_a :
      {r : Race} {p k : Place} {s : Shared} {q : Place} {u : Shared}
      → Racing a b r (record { shared = s; place_a = p; place_b = k })
      → Alone a p s q u
      → Racing a b r (record { shared = u; place_a = q; place_b = k })
  lift_a w still = w
  lift_a w (more k e) = onto (lift_a w k) (by_a e)

  lift_b :
      {r : Race} {p k : Place} {s : Shared} {q : Place} {u : Shared}
      → Racing a b r (record { shared = s; place_a = k; place_b = p })
      → Alone b p s q u
      → Racing a b r (record { shared = u; place_a = k; place_b = q })
  lift_b w still = w
  lift_b w (more k e) = onto (lift_b w k) (by_b e)

-- The walk to the last node.
walk :
    (new : Plmn) (s : Shared) (left mov last : ℕ)
    → length s.plmns ≡ suc last
    → mov + left ≡ last
    → Alone new (walking (suc left) mov) s (linking 0 last) s
unfolding advance
walk new s zero mov last h k =
    let at_end : mov ≡ last = omega arith in
    more still
      (rw (← at_end) (let e : (suc mov == length s.plmns) ≡ true = ground arith in ground arith))
walk new s (suc left) mov last h k =
    Alone-trans (more still (ground arith)) (walk new s left (suc mov) last h (omega arith))

finish :
    (new : Plmn) (xs : List Plmn) (n : ℕ)
    → Alone new counting
        (record { plmns = xs; len_plmn = n })
        finished
        (record { plmns = xs; len_plmn = n + 1 })
unfolding advance
finish new xs n = more (more still refl) refl

-- The place from which a call changes the list, with nothing changed yet.
before_write : List Plmn → Place
before_write [] = first_element
before_write (x ∷ xs) = linking 0 (length xs)

reach_write :
    (new : Plmn) (xs : List Plmn)
    → Alone new entered
        (record { plmns = xs; len_plmn = length xs })
        (before_write xs)
        (record { plmns = xs; len_plmn = length xs })
unfolding advance before_write
reach_write new [] = more still refl
reach_write new (x ∷ xs) = Alone-trans (more still (ground arith)) (
    walk new (record { plmns = x ∷ xs; len_plmn = suc (length xs) }) (length xs) 0 (length xs) refl
      (omega arith))

-- From there a call overwrites what follows the nodes that it has seen.
write :
    (new : Plmn) (xs ys : List Plmn) (n : ℕ)
    → Alone new
        (before_write xs)
        (record { plmns = xs ++ ys; len_plmn = n })
        finished
        (record { plmns = xs ++ new ∷ []; len_plmn = n + 1 })
unfolding advance before_write
write new [] ys n = Alone-trans (more still refl) (finish new (new ∷ []) n)
write new (x ∷ xs) ys n =
    Alone-trans
      (more
        (more still (
          ap
            (λ (l : List Plmn).
              some (walking 0 (length xs), record { plmns = l ++ new ∷ []; len_plmn = n }))
            (take-append (x ∷ xs) ys)))
        refl)
      (finish new (x ∷ xs ++ new ∷ []) n)

-- A call by itself, up to its write and through it.
whole :
    (new : Plmn) (xs : List Plmn)
    → Alone new entered
        (record { plmns = xs; len_plmn = length xs })
        finished
        (record { plmns = xs ++ new ∷ []; len_plmn = length xs + 1 })
whole new xs =
    Alone-trans (reach_write new xs) (rw (append-nil xs) at (write new xs [] (length xs)))

-- Two calls of `AddedPlmn` at once, on any list whose counter is its length: there is a run that adds
-- both elements at its end, and a run that adds the second alone. In both the counter is two more
-- than before, so after the second run it is not the length of the list.
pub overlap_loses :
    (a b : Plmn) (plmns : List Plmn)
    → ((r : Race) × Racing a b (both_entered plmns) r
        × (r.place_a ≡ finished)
        × (r.place_b ≡ finished)
        × (r.shared.plmns ≡ plmns ++ a ∷ b ∷ [])
        × (r.shared.len_plmn ≡ length plmns + 2))
      × ((r : Race) × Racing a b (both_entered plmns) r
          × (r.place_a ≡ finished)
          × (r.place_b ≡ finished)
          × (r.shared.plmns ≡ plmns ++ b ∷ [])
          × (r.shared.len_plmn ≡ length plmns + 2)
          × (r.shared.len_plmn ≢ length r.shared.plmns))
overlap_loses a b plmns =
    let after_a = plmns ++ a ∷ [] in
    let one_more : length after_a ≡ length plmns + 1 = length-append plmns (a ∷ []) in
    let lost : length (plmns ++ b ∷ []) ≡ length plmns + 1 = length-append plmns (b ∷ []) in
    let second = rw one_more at (whole b after_a) in
    (
      (
        _,
        lift_b (lift_a here (whole a plmns)) second,
        refl,
        refl,
        append_assoc plmns (a ∷ []) (b ∷ []),
        omega arith,
      ),
      (
        _,
        lift_b (lift_a (lift_b here (reach_write b plmns)) (whole a plmns))
            (write b plmns (a ∷ []) (length plmns + 1)),
        refl,
        refl,
        refl,
        omega arith,
        λ e. omega (arith, e, lost),
      ),
    )
