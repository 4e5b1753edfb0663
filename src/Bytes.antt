-- ===== src/Bytes.antt =====
-- Byte slices as lists of numbers, and what the source uses of encoding/binary: a big-endian
-- word of any number of bytes. `xor_bytes` is the byte loop `x[i] ^ y[i]`.
pub mod Laws
pub mod Hex
use central_unit.Base.{
  ℕ, zero, suc, ◌+◌, ◌-◌, ◌*◌, ◌/◌, ◌%◌, ◌<◌, bit_xor, Bool, true, false, ◌&&◌, List, [], ◌∷◌, ◌++◌,
  take, replicate, length, ◌==◌,
}

abbrev pub Bytes : Type 0
Bytes = List ℕ

abbrev pub IsByte : ℕ → Type 0
IsByte b = b < 256

-- `binary.BigEndian.Uint16`, `Uint32` and `Uint64` of a slice of that size.
unfoldable pub be_from : ℕ → Bytes → ℕ
be_from acc [] = acc
be_from acc (b ∷ bs) = be_from (acc * 256 + b) bs

abbrev pub be : Bytes → ℕ
be = be_from 0

-- `binary.BigEndian.PutUint16`, `PutUint32` and `PutUint64`, as the bytes written.
unfoldable pub put_be : ℕ → ℕ → Bytes
put_be zero v = []
put_be (suc n) v = put_be n (v / 256) ++ v % 256 ∷ []

-- A fresh array of `n` bytes after `copy(array, src)`.
abbrev pub copy_into : ℕ → Bytes → Bytes
copy_into n src = take n src ++ replicate (n - length src) 0

unfoldable pub xor_bytes : Bytes → Bytes → Bytes
xor_bytes (x ∷ xs) (y ∷ ys) = bit_xor x y ∷ xor_bytes xs ys
xor_bytes _ _ = []

-- `bytes.Equal`, and equality of strings.
unfoldable pub equal : Bytes → Bytes → Bool
equal [] [] = true
equal (x ∷ xs) (y ∷ ys) = x == y && equal xs ys
equal _ _ = false
