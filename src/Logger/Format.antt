-- ===== src/Logger/Format.antt =====
-- The width of a log line's text.
use central_unit.Base.{
  ℕ, zero, suc, ◌+◌, ◌-◌, ◌≤◌, ◌≡◌, [], ◌∷◌, ◌++◌, length, take, replicate, arith, take-append,
}
use central_unit.Bytes.{Bytes}
use central_unit.Logger.{rune_count, padded}

rune_count-append : (xs ys : Bytes) → rune_count (xs ++ ys) ≡ rune_count xs + rune_count ys
unfolding rune_count
rune_count-append [] ys = omega arith
rune_count-append (x ∷ xs) ys = let rest = rune_count-append xs ys in ground arith

rune_count-spaces : (n : ℕ) → rune_count (replicate n b' ') ≡ n
unfolding rune_count
rune_count-spaces zero = omega arith
rune_count-spaces (suc n) = let rest = rune_count-spaces n in omega arith

-- The text comes first, unchanged, and with its padding it has 50 runes and a tab at least.
pub padded_lem :
    (format : Bytes)
    → (take (length format) (padded format) ≡ format)
      × (51 ≤ rune_count (padded format))
      × (rune_count format + 1 ≤ rune_count (padded format))
unfolding padded rune_count
padded_lem format =
    let n = 50 - rune_count format in
    let whole : rune_count (padded format)
        ≡ rune_count format + rune_count (replicate n b' ' ++ 9 ∷ []) =
      rune_count-append format (replicate n b' ' ++ 9 ∷ []) in
    let tail : rune_count (replicate n b' ' ++ 9 ∷ []) ≡ rune_count (replicate n b' ') + 1 =
      rune_count-append (replicate n b' ') (9 ∷ []) in
    let spaces = rune_count-spaces n in
    (take-append format (replicate n b' ' ++ 9 ∷ []), omega arith, omega arith)
