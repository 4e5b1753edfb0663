-- ===== src/Milenage/Standard.antt =====
-- The definition of 3GPP TS 35.206 (4.1), in which the code is measured: E_K is the block, a
-- rotation by 8 n bits towards the most significant bit moves n bytes, and the constants c1 to c5
-- have at most one bit set, in the last byte.
use central_unit.Base.{ℕ, ◌++◌, take, drop, set}
use central_unit.Bytes.{Bytes, xor_bytes}
use central_unit.Milenage.{Block, zeros, encrypt}

unfoldable pub rot : ℕ → Bytes → Bytes
rot n x = drop n x ++ take n x

unfoldable pub constant : ℕ → Bytes
constant v = set zeros 15 v

-- TEMP = E_K(RAND ⊕ OP_C)
unfoldable pub temp : Block → Bytes → Bytes → Bytes
temp e opc rand = encrypt e (xor_bytes rand opc)

-- OUT1 = E_K(TEMP ⊕ rot(IN1 ⊕ OP_C, r1) ⊕ c1) ⊕ OP_C, with r1 = 64 and c1 = 0.
unfoldable pub out1 : Block → Bytes → Bytes → Bytes → Bytes
unfolding rot constant
out1 e opc tmp in1 =
    xor_bytes (encrypt e (xor_bytes (xor_bytes tmp (rot 8 (xor_bytes in1 opc))) (constant 0))) opc

-- OUTn = E_K(rot(TEMP ⊕ OP_C, rn) ⊕ cn) ⊕ OP_C.
unfoldable pub out : Block → Bytes → Bytes → ℕ → ℕ → Bytes
unfolding rot constant
out e opc tmp r c = xor_bytes (encrypt e (xor_bytes (rot r (xor_bytes tmp opc)) (constant c))) opc
