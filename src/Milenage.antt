-- ===== src/Milenage.antt =====
-- The Milenage functions of internal/context/uecontext/milenage.go. A [16]uint8 array is a list of
-- 16 bytes. The AES block comes from crypto/aes, whose `NewCipher` is a parameter; `Encrypt` fills
-- the array that it is given. An `io.Reader` is the list of what its calls of `Read` deliver.
pub mod Standard
pub mod Rounds
pub mod Refinement
pub mod Sizes
use central_unit.Base.{
  ℕ, zero, suc, ◌+◌, ◌%◌, bit_xor, Bool, true, false, not, ◌&&◌, ◌||◌, List, [], ◌∷◌, ◌++◌, length,
  take, drop, set, get_or, replicate, Option, none, some, ◌==◌, if◌then◌else◌,
}
use central_unit.Bytes.{Bytes, copy_into, xor_bytes, equal}

abbrev pub Reader : Type 0
Reader = List Bytes

abbrev pub Block : Type 0
Block = Bytes → Bytes

-- `aes.NewCipher` (an error is `none`) and `rand.Reader`.
pub record Crypto : Type 0 where
  pub new_cipher : Bytes → Option Block
  pub system_reader : Reader

pub record Milenage : Type 0 where
  pub block : Block
  pub opc : Bytes
  pub randxor : Bytes
  pub rand : Bytes
  pub reader : Reader

abbrev pub zeros : Bytes
zeros = replicate 16 0

-- `block.Encrypt(dst[:], src)` into an array of 16 bytes.
abbrev pub encrypt : Block → Bytes → Bytes
encrypt block src = copy_into 16 (block src)

-- What `Read` leaves in an array of 16 bytes.
abbrev pub read_into : Bytes → Bytes → Bytes
read_into old got = take 16 got ++ drop (length got) old

abbrev pub next_read : Reader → Bytes
next_read [] = []
next_read (got ∷ _) = got

abbrev pub after_read : Reader → Reader
after_read [] = []
after_read (_ ∷ rest) = rest

-- The new random vector and `E_k(rand XOR opc)`.
unfoldable pub with_rand : Milenage → Bytes → Milenage
with_rand m r = record m { rand = r; randxor = encrypt m.block (xor_bytes r m.opc) }

unfoldable pub refresh : Milenage → Milenage
unfolding with_rand
refresh m =
    with_rand (record m { reader = after_read m.reader }) (read_into m.rand (next_read m.reader))

unfoldable pub opc_of : Block → Bytes → Bool → Bytes
opc_of block opopc true = opopc
opc_of block opopc false = xor_bytes (encrypt block opopc) opopc

-- A nil reader is `none`; an error of the constructor too.
abbrev pub reader_or : Crypto → Option Reader → Reader
reader_or lib none = lib.system_reader
reader_or lib (some r) = r

unfoldable pub new_milenage_ex : Crypto → Bytes → Option Reader → Bytes → Bool → Option Milenage
unfolding refresh opc_of
new_milenage_ex lib k r opopc isopc =
    if not (length k == 16) || not (length opopc == 16) then none else elim (lib.new_cipher k) [
      | none ↦ none
      | some block ↦ some (
          refresh (record {
            block = block;
            opc = opc_of block opopc isopc;
            randxor = zeros;
            rand = zeros;
            reader = reader_or lib r;
          }))
    ]

unfoldable pub new_milenage : Crypto → Bytes → Bytes → Bool → Option Milenage
unfolding new_milenage_ex
new_milenage lib k opopc isopc = new_milenage_ex lib k (some lib.system_reader) opopc isopc

unfoldable pub set_rand : Milenage → Bytes → Option Milenage
unfolding with_rand
set_rand m r = if length r == 16 then some (with_rand m r) else none

unfoldable pub get_rand : Milenage → Bytes
get_rand m = m.rand

-- `for i := range 16 { j = (i + rot) % 16; c[j] = value(i, j) }`, from index i on.
unfoldable pub spread : ℕ → (ℕ → ℕ → ℕ) → ℕ → ℕ → Bytes → Bytes
spread rot value zero i c = c
spread rot value (suc rounds) i c =
    spread rot value rounds (i + 1) (set c ((i + rot) % 16) (value i ((i + rot) % 16)))

abbrev pub byte_at : Bytes → ℕ → ℕ
byte_at x i = get_or x i 0

-- MAC-A and MAC-S; the error for a wrong size is `none`.
unfoldable pub f1 : Milenage → Bytes → Bytes → Option (Bytes × Bytes)
unfolding spread
f1 m sqn amf =
    let b = sqn ++ amf ++ sqn ++ amf in
    let c =
      spread 8 (λ i j. bit_xor (bit_xor (byte_at b i) (byte_at m.opc i)) (byte_at m.randxor j)) 16 0
        zeros in
    let a = xor_bytes (encrypt m.block c) m.opc in
    if not (length sqn == 6) || not (length amf == 2) then none else some (take 8 a, drop 8 a)

unfoldable pub operation : Milenage → ℕ → ℕ → Bytes
unfolding spread
operation m rot v =
    let c = set zeros 15 v in
    let a =
      spread rot (λ i j. bit_xor (bit_xor (byte_at m.randxor i) (byte_at m.opc i)) (byte_at c j)) 16
        0 zeros in
    xor_bytes (encrypt m.block a) m.opc

-- RES and AK.
unfoldable pub f2f5 : Milenage → Bytes × Bytes
f2f5 m = (drop 8 (operation m 0 1), take 6 (operation m 0 1))

unfoldable pub f3 : Milenage → Bytes
f3 m = operation m 12 2

unfoldable pub f4 : Milenage → Bytes
f4 m = operation m 8 4

unfoldable pub f5star : Milenage → Bytes
f5star m = take 6 (operation m 4 8)

-- The receiver, the sequence number that is returned, and whether the error is nil.
pub record Verdict : Type 0 where
  pub receiver : Milenage
  pub sqn : Bytes
  pub valid : Bool

abbrev mac_matches : Option (Bytes × Bytes) → Bytes → Bool
mac_matches none mac = equal [] mac
mac_matches (some (_, macs)) mac = equal macs mac

unfoldable pub validate_auts : Milenage → Bytes → Bytes → Verdict
validate_auts m auts randv =
    let m' = with_rand m randv in
    let sqn = xor_bytes (f5star m') (take 6 auts) in
    if not (length auts == 14) || not (length randv == 16)
    then record { receiver = m; sqn = replicate 6 0; valid = false }
    else record {
      receiver = m';
      sqn = sqn;
      valid = mac_matches (f1 m' sqn (0 ∷ 0 ∷ [])) (drop 6 auts);
    }
