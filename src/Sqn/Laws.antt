-- ===== src/Sqn/Laws.antt =====
-- The counter stays within 48 bits, and its six bytes are an exact representation of it.
use central_unit.Base.{
  ℕ, zero, suc, ◌+◌, ◌%◌, ◌^◌, ◌≤◌, ◌≡◌, refl, arith, [], ◌∷◌, ltb, if◌then◌else◌, length, All,
}
use central_unit.Bytes.{Bytes, IsByte, be}
use central_unit.Sqn.{Sqn, sqn_max, sqn_ind, bytes, inc, set, reset}

abbrev pub IsSqn : Sqn → Type 0
IsSqn n = n.value ≤ sqn_max

abbrev pub inc_times : ℕ → Sqn → Sqn
inc_times zero n = n
inc_times (suc k) n = inc (inc_times k n)

pub bytes_shape : (n : Sqn) → (length (bytes n) ≡ 6) × All IsByte (bytes n)
unfolding bytes
bytes_shape n = (refl, omega arith)

-- Any counter read from the six bytes of one within 48 bits is that counter.
pub set-bytes : (n m : Sqn) → IsSqn n → set m (bytes n) ≡ n
unfolding set bytes
set-bytes n m h = ground arith

-- Any six bytes are read into a 48-bit counter, and come back from it unchanged.
pub bytes-set :
    (n : Sqn) (x : Bytes) → length x ≡ 6 → All IsByte x → IsSqn (set n x) × (bytes (set n x) ≡ x)
unfolding set bytes
bytes-set n (a ∷ b ∷ c ∷ d ∷ e ∷ f ∷ []) len h = (omega arith, ground arith)
bytes-set n _ len h = absurd (omega arith)

-- From a 48-bit counter, k increments add k modulo 2^48.
pub inc_times_lem : (k : ℕ) (n : Sqn) → IsSqn n → (inc_times k n).value ≡ (n.value + k) % 2 ^ 48
unfolding inc
inc_times_lem zero n h = omega arith
inc_times_lem (suc k) n h = ground (arith, inc_times_lem k n h)

-- After a resynchronisation to x the counter is 32 above x, or 0 where that passes 48 bits.
pub reset_lem :
    (n : Sqn) (x : Bytes)
    → length x ≡ 6
    → All IsByte x
    → (reset n x).value ≡ (if ltb sqn_max (be x + sqn_ind) then 0 else be x + sqn_ind)
unfolding reset
reset_lem n (a ∷ b ∷ c ∷ d ∷ e ∷ f ∷ []) len h = ground arith
reset_lem n _ len h = absurd (omega arith)
