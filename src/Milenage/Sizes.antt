-- ===== src/Milenage/Sizes.antt =====
-- The sizes of the results, and what they depend on.
use central_unit.Base.{
  ℕ, ◌≡◌, ap, bit_xor, false, not, ◌||◌, ◌++◌, length, take, drop, some, ◌==◌, arith, length-take,
  length-drop,
}
use central_unit.Bytes.{Bytes, xor_bytes}
use central_unit.Bytes.Laws.{length-copy_into, length-xor_bytes}
use central_unit.Milenage.{
  Block, Milenage, zeros, encrypt, byte_at, spread, f1, operation, f2f5, f5star,
}

length-masked :
    (block : Block) (src opc : Bytes)
    → length opc ≡ 16
    → length (xor_bytes (encrypt block src) opc) ≡ 16
length-masked block src opc h =
    let sized = length-copy_into 16 (block src) in
    omega (arith, length-xor_bytes (encrypt block src) opc (omega arith))

pub length-operation :
    (m : Milenage) (rot v : ℕ) → length m.opc ≡ 16 → length (operation m rot v) ≡ 16
unfolding operation
length-operation m rot v h = length-masked m.block _ m.opc h

pub length-f5star : (m : Milenage) → length m.opc ≡ 16 → length (f5star m) ≡ 6
unfolding f5star
length-f5star m h = omega (arith, length-take 6 (operation m 4 8), length-operation m 4 8 h)

pub length-ak : (m : Milenage) → length m.opc ≡ 16 → length (f2f5 m).1 ≡ 6
unfolding f2f5
length-ak m h = omega (arith, length-take 6 (operation m 0 1), length-operation m 0 1 h)

pub f1-sizes :
    (m : Milenage) (sqn amf : Bytes)
    → length m.opc ≡ 16
    → length sqn ≡ 6
    → length amf ≡ 2
    → (maca : Bytes) × (macs : Bytes) × (f1 m sqn amf ≡ some (maca, macs))
      × (length maca ≡ 8)
      × (length macs ≡ 8)
unfolding f1
f1-sizes m sqn amf ho hs ha =
    let c =
      spread 8
        (λ i j.
          bit_xor (bit_xor (byte_at (sqn ++ amf ++ sqn ++ amf) i) (byte_at m.opc i))
            (byte_at m.randxor j))
        16 0 zeros in
    let a = xor_bytes (encrypt m.block c) m.opc in
    let sized = length-masked m.block c m.opc ho in
    let tests : not (length sqn == 6) || not (length amf == 2) ≡ false = ground arith in
    (
      take 8 a,
      drop 8 a,
      rw tests,
      omega (arith, length-take 8 a, sized),
      omega (arith, length-drop 8 a, sized),
    )

-- The random vector counts through TEMP alone, and the reader does not count.
pub same_functions :
    (m n : Milenage)
    → m.block ≡ n.block
    → m.opc ≡ n.opc
    → m.randxor ≡ n.randxor
    → ((sqn amf : Bytes) → f1 m sqn amf ≡ f1 n sqn amf) × (f5star m ≡ f5star n)
unfolding f1 f5star operation
same_functions m n hb ho hx =
    let e : m ≡ record n { rand = m.rand; reader = m.reader } = ground arith in
    (λ sqn amf. ap (λ k. f1 k sqn amf) e, ap f5star e)
