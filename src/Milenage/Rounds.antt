-- ===== src/Milenage/Rounds.antt =====
-- The loops that rotate, on arrays of 16 bytes.
use central_unit.Base.{
  ℕ, ◌≡◌, refl, bit_xor, [], ◌∷◌, length, replicate, take, drop, length-append, length-take,
  length-drop, arith,
}
use central_unit.Base.Bits.{bit_xor-zero, bit_xor_comm}
use central_unit.Bytes.{Bytes, xor_bytes}
use central_unit.Milenage.{zeros, byte_at, spread}
use central_unit.Milenage.Standard.{rot, constant}

-- A list of 16 bytes, taken apart.
data Sixteen : Bytes → Type 0 where
  sixteen :
      (a0 a1 a2 a3 a4 a5 a6 a7 a8 a9 a10 a11 a12 a13 a14 a15 : ℕ)
      → Sixteen
          (a0 ∷ a1 ∷ a2 ∷ a3 ∷ a4 ∷ a5 ∷ a6 ∷ a7 ∷ a8 ∷ a9 ∷ a10 ∷ a11 ∷ a12 ∷ a13 ∷ a14 ∷ a15 ∷ [])

to_sixteen : (x : Bytes) → length x ≡ 16 → Sixteen x
to_sixteen
      (a0 ∷ a1 ∷ a2 ∷ a3 ∷ a4 ∷ a5 ∷ a6 ∷ a7 ∷ a8 ∷ a9 ∷ a10 ∷ a11 ∷ a12 ∷ a13 ∷ a14 ∷ a15 ∷ []) h =
    sixteen a0 a1 a2 a3 a4 a5 a6 a7 a8 a9 a10 a11 a12 a13 a14 a15
to_sixteen _ h = absurd (omega arith)

-- The loop that moves byte i to place (i + r) mod 16 is a rotation by n bytes.
abbrev pub Rotates : Bytes → Bytes → Bytes → ℕ → ℕ → Type 0
Rotates x y z r n =
    spread r (λ i j. bit_xor (bit_xor (byte_at x i) (byte_at y i)) (byte_at z j)) 16 0 zeros
    ≡ xor_bytes (rot n (xor_bytes x y)) z

pub spread-rot :
    (x y z : Bytes)
    → length x ≡ 16
    → length y ≡ 16
    → length z ≡ 16
    → Rotates x y z 0 0 × Rotates x y z 12 4 × Rotates x y z 8 8 × Rotates x y z 4 12
unfolding spread xor_bytes rot
spread-rot x y z hx hy hz = go (to_sixteen x hx) (to_sixteen y hy) (to_sixteen z hz)
  where
    go :
        {x y z : Bytes}
        → Sixteen x
        → Sixteen y
        → Sixteen z
        → Rotates x y z 0 0 × Rotates x y z 12 4 × Rotates x y z 8 8 × Rotates x y z 4 12
    go (sixteen a0 a1 a2 a3 a4 a5 a6 a7 a8 a9 a10 a11 a12 a13 a14 a15)
          (sixteen b0 b1 b2 b3 b4 b5 b6 b7 b8 b9 b10 b11 b12 b13 b14 b15)
          (sixteen c0 c1 c2 c3 c4 c5 c6 c7 c8 c9 c10 c11 c12 c13 c14 c15) =
        (refl, refl, refl, refl)

pub xor_bytes_comm : (x y : Bytes) → xor_bytes x y ≡ xor_bytes y x
unfolding xor_bytes
xor_bytes_comm [] [] = refl
xor_bytes_comm [] (b ∷ y) = refl
xor_bytes_comm (a ∷ x) [] = refl
xor_bytes_comm (a ∷ x) (b ∷ y) = cc (bit_xor_comm a b, xor_bytes_comm x y)

xor_bytes-replicate : (x : Bytes) → xor_bytes x (replicate (length x) 0) ≡ x
unfolding xor_bytes
xor_bytes-replicate [] = refl
xor_bytes-replicate (a ∷ x) = cc (bit_xor-zero a, xor_bytes-replicate x)

pub xor_bytes-constant : (x : Bytes) → length x ≡ 16 → xor_bytes x (constant 0) ≡ x
unfolding constant
xor_bytes-constant x h = (rw h at (xor_bytes-replicate x))

pub length-rot : (n : ℕ) (x : Bytes) → length (rot n x) ≡ length x
unfolding rot
length-rot n x =
    omega (arith, length-append (drop n x) (take n x), length-drop n x, length-take n x)
