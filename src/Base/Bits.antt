-- ===== src/Base/Bits.antt =====
-- The bitwise operations at variables: masks and disjoint fields as arithmetic, and the group laws
-- of exclusive or.
mod Step
use Step.{by_halving, or_low_digit, and_low_digit, xor_low_digit, zero-bit_xor}
use Prim.Native.Nat.{ℕ, zero, suc, ◌+◌, ◌-◌, ◌*◌, ◌/◌, ◌%◌, ◌^◌, ◌<◌, bit_and, bit_or, bit_xor}
use mathlib.Core.Path.{◌≡◌, refl, ap, sym, ◌∙◌}
use native.Mathlib.Nat.{pow-suc, one-le-pow}
use native.Mathlib.Omega.{arith}

bit_or-zero : (a : ℕ) → bit_or a 0 ≡ a
bit_or-zero = by_halving (λ a. bit_or a 0 ≡ a) refl λ n half. omega (arith, or_low_digit (suc n) 0)

bit_and-zero : (a : ℕ) → bit_and a 0 ≡ 0
bit_and-zero =
    by_halving (λ a. bit_and a 0 ≡ 0) refl λ n half. omega (arith, and_low_digit (suc n) 0)

shifted_once_more : (q k : ℕ) → q * 2 ^ suc k ≡ 2 * (q * 2 ^ k)
shifted_once_more q k = omega (arith, ap (λ (t : ℕ). q * t) (pow-suc 2 k))

-- `q << k | r` is a sum where `r` fits `k` bits.
pub bit_or_fields : (k q r : ℕ) → r < 2 ^ k → bit_or (q * 2 ^ k) r ≡ q * 2 ^ k + r
bit_or_fields zero q r fits = ground (arith, bit_or-zero q)
bit_or_fields (suc k) q r fits = ground (
  arith,
  or_low_digit (q * 2 ^ suc k) r,
  shifted_once_more q k,
  bit_or_fields k q (r / 2) (omega arith),
)

bit_and_fields : (k q r : ℕ) → r < 2 ^ k → bit_and (q * 2 ^ k + r) (2 ^ k - 1) ≡ r
bit_and_fields zero q r fits = omega (arith, bit_and-zero (q * 2 ^ 0 + r))
bit_and_fields (suc k) q r fits = ground (
  arith,
  and_low_digit (q * 2 ^ suc k + r) (2 ^ suc k - 1),
  shifted_once_more q k,
  pow-suc 2 k,
  bit_and_fields k q (r / 2) (omega arith),
)

-- A mask of `k` low bits is the remainder by `2 ^ k`.
pub bit_and_mask : (k a : ℕ) → bit_and a (2 ^ k - 1) ≡ a % 2 ^ k
bit_and_mask k a = ground (arith, one-le-pow k 2, bit_and_fields k (a / 2 ^ k) (a % 2 ^ k))

bit_xor_self : (a : ℕ) → bit_xor a a ≡ 0
bit_xor_self =
    by_halving (λ a. bit_xor a a ≡ 0) refl λ n half. omega (arith, xor_low_digit (suc n) (suc n))

-- Exclusive or twice by the same number gives the first number back.
pub bit_xor_cancel : (a b : ℕ) → bit_xor (bit_xor a b) b ≡ a
bit_xor_cancel =
    by_halving (λ a. (b : ℕ) → bit_xor (bit_xor a b) b ≡ a)
      (λ b. rw (zero-bit_xor b) (bit_xor_self b))
      λ n half b.
        ground (arith, xor_low_digit (suc n) b, xor_low_digit (bit_xor (suc n) b) b, half (b / 2))

pub bit_xor-lt : (k a b : ℕ) → a < 2 ^ k → b < 2 ^ k → bit_xor a b < 2 ^ k
bit_xor-lt zero zero b ha hb = rw (zero-bit_xor b) hb
bit_xor-lt zero (suc a) b ha hb = absurd (omega arith)
bit_xor-lt (suc k) a b ha hb = omega (
  arith,
  pow-suc 2 k,
  xor_low_digit a b,
  bit_xor-lt k (a / 2) (b / 2) (omega (arith, pow-suc 2 k)) (omega (arith, pow-suc 2 k)),
)

pub bit_xor-zero : (a : ℕ) → bit_xor a 0 ≡ a
bit_xor-zero =
    by_halving (λ a. bit_xor a 0 ≡ a) refl λ n half. omega (arith, xor_low_digit (suc n) 0)

pub bit_xor_comm : (a b : ℕ) → bit_xor a b ≡ bit_xor b a
bit_xor_comm =
    by_halving (λ a. (b : ℕ) → bit_xor a b ≡ bit_xor b a)
      (λ b. zero-bit_xor b ∙ sym (bit_xor-zero b))
      λ n half b. omega (arith, xor_low_digit (suc n) b, xor_low_digit b (suc n), half (b / 2))
