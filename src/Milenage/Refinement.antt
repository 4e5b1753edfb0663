-- ===== src/Milenage/Refinement.antt =====
-- The functions of the code are those of the standard.
use central_unit.Base.{
  ℕ, ◌≡◌, ◌∙◌, sym, ap, refl, Bool, true, false, not, ◌||◌, ◌++◌, length, length-append, take, drop,
  Option, some, ◌==◌, arith, Option-cases, inl, inr, length-take, length-drop,
}
use central_unit.Bytes.{Bytes, xor_bytes}
use central_unit.Bytes.Laws.{length-copy_into, length-xor_bytes}
use central_unit.Milenage.{
  Block, Milenage, Crypto, Reader, zeros, encrypt, read_into, with_rand, refresh, opc_of,
  new_milenage_ex, reader_or, set_rand, next_read, after_read, f1, operation, f2f5, f3, f4, f5star,
}
use central_unit.Milenage.Standard.{rot, constant, temp, out1, out}
use central_unit.Milenage.Rounds.{spread-rot, xor_bytes_comm, xor_bytes-constant, length-rot}

-- The arrays have 16 bytes, and TEMP belongs to the random vector.
pub record IsReady (m : Milenage) : Type 0 where
  pub opc_size : length m.opc ≡ 16
  pub rand_size : length m.rand ≡ 16
  pub temp_of_rand : m.randxor ≡ temp m.block m.opc m.rand

length-temp : (m : Milenage) → IsReady m → length m.randxor ≡ 16
unfolding temp
length-temp m h = ap length h.temp_of_rand ∙ length-copy_into 16 (m.block (xor_bytes m.rand m.opc))

with_rand-IsReady :
    (m : Milenage) (r : Bytes) → length m.opc ≡ 16 → length r ≡ 16 → IsReady (with_rand m r)
unfolding with_rand temp
with_rand-IsReady m r ho hr = record { opc_size = ho; rand_size = hr; temp_of_rand = refl }

length-read_into : (old got : Bytes) → length old ≡ 16 → length (read_into old got) ≡ 16
length-read_into old got h = omega (
  arith,
  length-append (take 16 got) (drop (length got) old),
  length-take 16 got,
  length-drop (length got) old,
)

length-opc_of :
    (block : Block) (opopc : Bytes) (isopc : Bool)
    → length opopc ≡ 16
    → length (opc_of block opopc isopc) ≡ 16
unfolding opc_of
length-opc_of block opopc true h = h
length-opc_of block opopc false h =
    let sized = length-copy_into 16 (block opopc) in
    omega (arith, length-xor_bytes (encrypt block opopc) opopc (omega arith))

refresh-IsReady : (m : Milenage) → length m.opc ≡ 16 → length m.rand ≡ 16 → IsReady (refresh m)
unfolding refresh
refresh-IsReady m ho hr =
    with_rand-IsReady (record m { reader = after_read m.reader })
      (read_into m.rand (next_read m.reader)) ho (length-read_into m.rand (next_read m.reader) hr)

new-IsReady :
    (lib : Crypto) (k opopc : Bytes) (reader : Option Reader) (isopc : Bool) (m : Milenage)
    → new_milenage_ex lib k reader opopc isopc ≡ some m
    → IsReady m
unfolding new_milenage_ex
new-IsReady lib k opopc reader isopc m made = elim (Option-cases (lib.new_cipher k)) [
  | inl n ↦ absurd (ground (arith, n))
  | inr (block, e) ↦
      let fresh : Milenage = record {
        block = block;
        opc = opc_of block opopc isopc;
        randxor = zeros;
        rand = zeros;
        reader = reader_or lib reader;
      } in
      let sized : length opopc ≡ 16 = ground (arith, e) in
      let built : m ≡ refresh fresh = ground (arith, e) in
      rw built (refresh-IsReady fresh (length-opc_of block opopc isopc sized) refl)
]

set_rand-IsReady :
    (m m' : Milenage) (r : Bytes)
    → length m.opc ≡ 16
    → set_rand m r ≡ some m'
    → IsReady m' × (m'.rand ≡ r) × (m'.opc ≡ m.opc)
unfolding set_rand with_rand
set_rand-IsReady m m' r ho e =
    let sized : length r ≡ 16 = ground arith in
    let built : m' ≡ with_rand m r = ground arith in
    (rw built (with_rand-IsReady m r ho sized), rw built refl, rw built refl)

-- Whatever the reader delivers, a value that the constructor returns is ready, and stays so under
-- `Refresh` and under a `SetRand` that returns no error, which takes the given vector and keeps the
-- operator's constant.
pub constructed-IsReady :
    (lib : Crypto) (k opopc r : Bytes) (reader : Option Reader) (isopc : Bool) (m m' : Milenage)
    → new_milenage_ex lib k reader opopc isopc ≡ some m
    → set_rand m r ≡ some m'
    → IsReady m × IsReady (refresh m) × IsReady m' × (m'.rand ≡ r) × (m'.opc ≡ m.opc)
constructed-IsReady lib k opopc r reader isopc m m' made renewed =
    let ready = new-IsReady lib k opopc reader isopc m made in
    let (ready', rand', opc') = set_rand-IsReady m m' r ready.opc_size renewed in
    (ready, refresh-IsReady m ready.opc_size ready.rand_size, ready', rand', opc')

module _ (m : Milenage) (h : IsReady m) where
  operation-out :
      (v : ℕ)
      → (operation m 0 v ≡ out m.block m.opc m.randxor 0 v)
        × (operation m 12 v ≡ out m.block m.opc m.randxor 4 v)
        × (operation m 8 v ≡ out m.block m.opc m.randxor 8 v)
        × (operation m 4 v ≡ out m.block m.opc m.randxor 12 v)
  unfolding operation out constant
  operation-out v =
      let (r0, r1, r2, r3) =
        spread-rot m.randxor m.opc (constant v) (length-temp m h) h.opc_size refl in
      (rw r0, rw r1, rw r2, rw r3)

  f1-out1 :
      (sqn amf : Bytes)
      → length sqn ≡ 6
      → length amf ≡ 2
      → f1 m sqn amf
        ≡ some (
          take 8 (out1 m.block m.opc m.randxor (sqn ++ amf ++ sqn ++ amf)),
          drop 8 (out1 m.block m.opc m.randxor (sqn ++ amf ++ sqn ++ amf)),
        )
  unfolding f1 out1
  f1-out1 sqn amf hs ha =
      let in1 = sqn ++ amf ++ sqn ++ amf in
      let sized : length in1 ≡ 16 = omega (
        arith,
        length-append (sqn ++ amf ++ sqn) amf,
        length-append (sqn ++ amf) sqn,
        length-append sqn amf,
      ) in
      let turned = (spread-rot in1 m.opc m.randxor sized h.opc_size (length-temp m h)).2 in
      let rotated = rot 8 (xor_bytes in1 m.opc) in
      let swapped = xor_bytes_comm rotated m.randxor in
      let sizes : length m.randxor ≡ length rotated = omega (
        arith,
        length-temp m h,
        length-rot 8 (xor_bytes in1 m.opc),
        length-xor_bytes in1 m.opc (omega (arith, h.opc_size)),
        h.opc_size,
      ) in
      let joined : length (xor_bytes m.randxor rotated) ≡ 16 =
        length-xor_bytes m.randxor rotated sizes ∙ length-temp m h in
      let no_constant = xor_bytes-constant (xor_bytes m.randxor rotated) joined in
      let same = turned ∙ swapped ∙ sym no_constant in
      let tests : not (length sqn == 6) || not (length amf == 2) ≡ false = ground arith in
      rw (tests, same)

-- In a ready value the functions of the code are those of TS 35.206: with TEMP of the random
-- vector, MAC-A and MAC-S are the halves of OUT1, RES and AK parts of OUT2, CK is OUT3, IK is OUT4
-- and AK* a part of OUT5, with the rotations and the constants of the standard.
pub functions_lem :
    (m : Milenage) (sqn amf : Bytes)
    → IsReady m
    → length sqn ≡ 6
    → length amf ≡ 2
    → (let tmp = temp m.block m.opc m.rand in
        let o1 = out1 m.block m.opc tmp (sqn ++ amf ++ sqn ++ amf) in
        let o2 = out m.block m.opc tmp 0 1 in
        (f1 m sqn amf ≡ some (take 8 o1, drop 8 o1))
        × (f2f5 m ≡ (drop 8 o2, take 6 o2))
        × (f3 m ≡ out m.block m.opc tmp 4 2)
        × (f4 m ≡ out m.block m.opc tmp 8 4)
        × (f5star m ≡ take 6 (out m.block m.opc tmp 12 8)))
unfolding f2f5 f3 f4 f5star
functions_lem m sqn amf h hs ha = rw (← h.temp_of_rand) (
  f1-out1 m h sqn amf hs ha,
  rw ((operation-out m h 1).0),
  (operation-out m h 2).1,
  (operation-out m h 4).2,
  ap (λ (t : Bytes). take 6 t) (operation-out m h 8).3,
)
