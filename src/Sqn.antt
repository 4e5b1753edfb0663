-- ===== src/Sqn.antt =====
-- The sequence number of internal/context/uecontext/sqn.go: a 48-bit counter in a uint64.
pub mod Laws
use central_unit.Base.{ℕ, ◌+◌, ◌%◌, ◌^◌, ltb, if◌then◌else◌, ◌-◌, ◌++◌, drop}
use central_unit.Base.{[], ◌∷◌, length, take, replicate}
use central_unit.Bytes.Hex.{sprint_hex}
use central_unit.Bytes.{Bytes, be_from, be, put_be, copy_into}

abbrev pub sqn_max : ℕ
sqn_max = 0xffffffffffff

abbrev pub sqn_ind : ℕ
sqn_ind = 32

pub record Sqn : Type 0 where
  pub value : ℕ

-- `PutUint64` into eight bytes, then `buf[2:]`.
unfoldable pub bytes : Sqn → Bytes
unfolding put_be
bytes n = drop 2 (put_be 8 n.value)

-- `n.value++` wraps at 2^64; past `SQN_MAX` the counter starts again at 0.
unfoldable pub inc : Sqn → Sqn
inc n = let v = (n.value + 1) % 2 ^ 64 in record { value = if ltb sqn_max v then 0 else v }

-- `copy(buf[2:], sqn)` takes six bytes at most, and leaves zeros behind a shorter slice.
unfoldable pub set : Sqn → Bytes → Sqn
unfolding be_from
set n sqn = record { value = be (0 ∷ 0 ∷ copy_into 6 sqn) }

unfoldable pub get_val : Sqn → ℕ
get_val n = n.value

unfoldable pub reset : Sqn → Bytes → Sqn
unfolding set inc
reset n sqn = let n' = set n sqn in inc (record n' { value = (n'.value + (sqn_ind - 1)) % 2 ^ 64 })

-- `fmt.Sprintf("%x", n.Bytes())`
unfoldable pub string : Sqn → Bytes
unfolding bytes sprint_hex
string n = sprint_hex (bytes n)
