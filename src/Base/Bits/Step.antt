-- ===== src/Base/Bits/Step.antt =====
-- One equation for the lowest digit of each bitwise operation, and recursion that halves.
use Prim.Native.Nat.{
  ℕ, zero, suc, ◌+◌, ◌-◌, ◌*◌, ◌/◌, ◌%◌, ◌≤◌, ◌<◌, min, max, digits, bitwise, differ, bit_and,
  bit_or, bit_xor, bit_and-bitwise, bit_or-bitwise, bit_xor-bitwise,
}
use mathlib.Core.Path.{◌≡◌, refl, ap, ◌∙◌}
use mathlib.Core.WellFounded
use native.Mathlib.Omega.{arith}
use central_unit.Base.Order.{lt_wf}

-- A family that passes from the half of a number to the number holds everywhere.
pub by_halving : (P : ℕ → Type 0) → P 0 → ((n : ℕ) → P (suc n / 2) → P (suc n)) → (n : ℕ) → P n
by_halving P start double n = WellFounded.induction lt_wf n go
  where
    go : (k : ℕ) → ((m : ℕ) → m < k → P m) → P k
    go zero ih = start
    go (suc k) ih = double k (ih (suc k / 2) (omega arith))

module _ (rest : ℕ → ℕ) (op : ℕ → ℕ → ℕ) where
  -- One round more than there are digits changes nothing.
  spare_round :
      (b rounds a : ℕ) → a ≤ rounds → digits rest op (suc rounds) a b ≡ digits rest op rounds a b
  spare_round b zero zero few = refl
  spare_round b zero (suc a) few = absurd (omega arith)
  spare_round b (suc rounds) zero few = refl
  spare_round b (suc rounds) (suc a) few =
      ap (λ (t : ℕ). t * 2 + op (suc a % 2) (b % 2))
        (spare_round (b / 2) rounds (suc a / 2) (omega arith))

  spare_rounds :
      (extra rounds a b : ℕ) → rounds ≡ extra + a → digits rest op rounds a b ≡ bitwise rest op a b
  spare_rounds zero rounds a b e = let same : rounds ≡ a = omega arith in rw same refl
  spare_rounds (suc extra) zero a b e = absurd (omega arith)
  spare_rounds (suc extra) (suc rounds) a b e =
      spare_round b rounds a (omega arith) ∙ spare_rounds extra rounds a b (omega arith)

  low_digit :
      (a b : ℕ)
      → bitwise rest op (suc a) b ≡ op (suc a % 2) (b % 2) + 2 * bitwise rest op (suc a / 2) (b / 2)
  low_digit a b =
      let half = spare_rounds (a - suc a / 2) a (suc a / 2) (b / 2) (omega arith) in
      omega (arith, half)

pub or_low_digit : (a b : ℕ) → bit_or a b ≡ max (a % 2) (b % 2) + 2 * bit_or (a / 2) (b / 2)
or_low_digit zero b = simp bit_or-bitwise (omega arith)
or_low_digit (suc a) b = simp bit_or-bitwise (low_digit (λ y. y) max a b)

pub and_low_digit : (a b : ℕ) → bit_and a b ≡ min (a % 2) (b % 2) + 2 * bit_and (a / 2) (b / 2)
and_low_digit zero b = simp bit_and-bitwise (omega arith)
and_low_digit (suc a) b = simp bit_and-bitwise (low_digit (λ _. 0) min a b)

-- The exclusive or of two digits is their sum without the carry.
differ_digits : (x y : ℕ) → x < 2 → y < 2 → differ x y ≡ (x + y) % 2
differ_digits zero y hx hy = omega arith
differ_digits (suc zero) zero hx hy = refl
differ_digits (suc zero) (suc zero) hx hy = refl
differ_digits (suc zero) (suc (suc y)) hx hy = absurd (omega arith)
differ_digits (suc (suc x)) y hx hy = absurd (omega arith)

pub zero-bit_xor : (b : ℕ) → bit_xor 0 b ≡ b
zero-bit_xor b = bit_xor-bitwise 0 b

pub xor_low_digit : (a b : ℕ) → bit_xor a b ≡ (a % 2 + b % 2) % 2 + 2 * bit_xor (a / 2) (b / 2)
xor_low_digit zero b = simp bit_xor-bitwise (omega arith)
xor_low_digit (suc a) b =
    rw (← differ_digits (suc a % 2) (b % 2) (omega arith) (omega arith))
      (simp bit_xor-bitwise (low_digit (λ y. y) differ a b))
