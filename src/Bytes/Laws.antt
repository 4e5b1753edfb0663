-- ===== src/Bytes/Laws.antt =====
-- Laws of big-endian words, of `equal` and of `xor_bytes`.
use central_unit.Base.{
  ℕ, zero, suc, ◌+◌, ◌*◌, ◌/◌, ◌%◌, ◌^◌, ◌<◌, ◌≡◌, refl, ◌∙◌, ap, ◌↔◌, true, [], ◌∷◌, ◌++◌, length,
  length-append, length-take, length-replicate, take, replicate, ◌-◌, All, All-append, arith,
}
use central_unit.Base.Bits.{bit_xor_cancel, bit_xor-lt}
use central_unit.Bytes.{Bytes, IsByte, be_from, be, put_be, copy_into, xor_bytes, equal}
use native.Mathlib.Nat.{pow-suc}

pub be_from-append :
    (acc : ℕ) (xs ys : Bytes) → be_from acc (xs ++ ys) ≡ be_from (be_from acc xs) ys
unfolding be_from
be_from-append acc [] ys = refl
be_from-append acc (x ∷ xs) ys = be_from-append (acc * 256 + x) xs ys

pub be_from_lem : (acc : ℕ) (xs : Bytes) → be_from acc xs ≡ acc * 256 ^ length xs + be xs
unfolding be_from
be_from_lem acc [] = omega arith
be_from_lem acc (x ∷ xs) = omega (
  arith,
  be_from_lem (acc * 256 + x) xs,
  be_from_lem (0 * 256 + x) xs,
  ap (λ (t : ℕ). acc * t) (pow-suc 256 (length xs)),
)

-- A slice of n bytes stands for a number below 256 ^ n.
pub be-lt : (xs : Bytes) → All IsByte xs → be xs < 256 ^ length xs
unfolding be_from
be-lt [] h = omega arith
be-lt (x ∷ xs) h =
    grind (arith, be_from_lem (0 * 256 + x) xs, be-lt xs h.1, pow-suc 256 (length xs))

pub length-put_be : (n v : ℕ) → length (put_be n v) ≡ n
unfolding put_be
length-put_be zero v = refl
length-put_be (suc n) v =
    omega (arith, length-append (put_be n (v / 256)) (v % 256 ∷ []), length-put_be n (v / 256))

pub put_be-IsByte : (n v : ℕ) → All IsByte (put_be n v)
unfolding put_be
put_be-IsByte zero v = tt
put_be-IsByte (suc n) v =
    All-append IsByte (put_be n (v / 256)) (v % 256 ∷ []) (put_be-IsByte n (v / 256)) (omega arith)

pub be-put_be : (n v : ℕ) → v < 256 ^ n → be (put_be n v) ≡ v
unfolding put_be be_from
be-put_be zero v h = omega arith
be-put_be (suc n) v h = omega (
  arith,
  be_from-append 0 (put_be n (v / 256)) (v % 256 ∷ []),
  be-put_be n (v / 256) (omega (arith, pow-suc 256 n)),
)

put_be-suc : (n v : ℕ) → put_be (suc n) v ≡ put_be n (v / 256) ++ v % 256 ∷ []
unfolding put_be
put_be-suc n v = refl

put_be-cons :
    (n b r : ℕ) → b < 256 → r < 256 ^ n → put_be (suc n) (b * 256 ^ n + r) ≡ b ∷ put_be n r
put_be-cons zero b r hb hr = unfold put_be in ground arith
put_be-cons (suc n) b r hb hr =
    rw (put_be-suc (suc n) (b * 256 ^ suc n + r), quotient, remainder, put_be-suc n r)
      (ap (λ l. l ++ r % 256 ∷ []) (put_be-cons n b (r / 256) hb (omega (arith, pow-suc 256 n))))
  where
    shifted : b * 256 ^ suc n ≡ 256 * (b * 256 ^ n)
    shifted = omega (arith, ap (λ (t : ℕ). b * t) (pow-suc 256 n))

    quotient : (b * 256 ^ suc n + r) / 256 ≡ b * 256 ^ n + r / 256
    quotient = omega (arith, shifted)

    remainder : (b * 256 ^ suc n + r) % 256 ≡ r % 256
    remainder = omega (arith, shifted)

pub put_be-be : (xs : Bytes) → All IsByte xs → put_be (length xs) (be xs) ≡ xs
put_be-be [] h = unfold put_be in refl
put_be-be (x ∷ xs) h =
    rw (be_cons)
      (put_be-cons (length xs) x (be xs) h.0 (be-lt xs h.1) ∙ ap (λ l. x ∷ l) (put_be-be xs h.1))
  where
    be_cons : be (x ∷ xs) ≡ x * 256 ^ length xs + be xs
    be_cons = unfold be_from in omega (arith, be_from_lem (0 * 256 + x) xs)

pub equal_refl : (xs : Bytes) → equal xs xs ≡ true
unfolding equal
equal_refl [] = refl
equal_refl (x ∷ xs) = ground (arith, equal_refl xs)

pub eq_of_equal : (xs ys : Bytes) → equal xs ys ≡ true → xs ≡ ys
unfolding equal
eq_of_equal [] [] h = refl
eq_of_equal [] (y ∷ ys) h = cc
eq_of_equal (x ∷ xs) [] h = cc
eq_of_equal (x ∷ xs) (y ∷ ys) h = ground (arith, eq_of_equal xs ys)

pub equal_iff : (xs ys : Bytes) → (equal xs ys ≡ true) ↔ (xs ≡ ys)
equal_iff xs ys = (eq_of_equal xs ys, λ e. rw e (equal_refl ys))

pub xor_bytes_cancel : (xs ys : Bytes) → length xs ≡ length ys → xor_bytes (xor_bytes xs ys) ys ≡ xs
unfolding xor_bytes
xor_bytes_cancel [] ys h = refl
xor_bytes_cancel (x ∷ xs) [] h = absurd (omega arith)
xor_bytes_cancel (x ∷ xs) (y ∷ ys) h = cc (bit_xor_cancel x y, xor_bytes_cancel xs ys (omega arith))

pub length-xor_bytes :
    (xs ys : Bytes) → length xs ≡ length ys → length (xor_bytes xs ys) ≡ length xs
unfolding xor_bytes
length-xor_bytes [] ys h = refl
length-xor_bytes (x ∷ xs) [] h = absurd (omega arith)
length-xor_bytes (x ∷ xs) (y ∷ ys) h = omega (arith, length-xor_bytes xs ys)

pub xor_bytes-IsByte :
    (xs ys : Bytes) → All IsByte xs → All IsByte ys → All IsByte (xor_bytes xs ys)
unfolding xor_bytes
xor_bytes-IsByte [] ys hx hy = tt
xor_bytes-IsByte (x ∷ xs) [] hx hy = tt
xor_bytes-IsByte (x ∷ xs) (y ∷ ys) hx hy =
    (bit_xor-lt 8 x y hx.0 hy.0, xor_bytes-IsByte xs ys hx.1 hy.1)

pub length-copy_into : (n : ℕ) (src : Bytes) → length (copy_into n src) ≡ n
length-copy_into n src = omega (
  arith,
  length-append (take n src) (replicate (n - length src) 0),
  length-take n src,
  length-replicate {A = ℕ} (n - length src) 0,
)
