-- ===== src/Base/Int.antt =====
-- A signed integer over the native numbers; only its sign is tested.
use Prim.Native.Nat.{ℕ, zero, suc, ◌≤◌}
use mathlib.Core.Path.{◌≡◌}
use mathlib.Core.Logic.{◌↔◌}
use native.Mathlib.Omega.{arith}
use central_unit.Base.Tests.{◌==◌}
use mathlib.Core.Bool.{Bool, true, false}

pub data ℤ : Type 0 where
  pos : ℕ → ℤ
  negsuc : ℕ → ℤ

-- `n <= 0`
abbrev pub not_positive : ℤ → Bool
not_positive (pos zero) = true
not_positive (pos (suc n)) = false
not_positive (negsuc n) = true

-- `n == k` for a constant that is not negative.
abbrev pub is_nat : (ℕ → Bool) → ℤ → Bool
is_nat test (pos n) = test n
is_nat test (negsuc n) = false

abbrev pub IsPositive : ℤ → Type 0
IsPositive (pos n) = 1 ≤ n
IsPositive (negsuc n) = ⊥

pub not_positive_iff : (n : ℤ) → (not_positive n ≡ false) ↔ IsPositive n
not_positive_iff (pos zero) = ground arith
not_positive_iff (pos (suc n)) = ground arith
not_positive_iff (negsuc n) = ground arith

pub is_nat_iff : (k : ℕ) (n : ℤ) → (is_nat (λ m. m == k) n ≡ true) ↔ (n ≡ pos k)
is_nat_iff k (pos n) = ground arith
is_nat_iff k (negsuc n) = ground arith
