-- ===== src/Amf.antt =====
-- The AMF context of internal/context/amfcontext/amfcontext.go, and `handlerNgSetupResponse` of
-- internal/context/handle_amf.go up to its signal. A chain of `Next` pointers is a list, and the
-- cursor `mov` a position in it; nil is the empty list, which no loop may dereference.
pub mod Support
pub mod Setup
pub mod Race
use central_unit.Base.{
  ℕ, zero, suc, ◌+◌, ◌*◌, ◌%◌, ◌^◌, Bool, List, [], ◌∷◌, ◌++◌, length, get_elem?, ◌==◌,
  if◌then◌else◌, Run, done, panic, must, ◌>>=◌, ◌>>◌, Option,
}
use central_unit.Asn1.{BitString}
use central_unit.Base.Int.{ℤ}
use central_unit.Bytes.{Bytes}
use central_unit.Bytes.Hex.{sprint_hex}
use central_unit.Plmn.{convert_mcc_mnc}

pub data AmfState : Type 0 where
  inactive active overloaded : AmfState

pub record Plmn : Type 0 where
  pub mcc : Bytes
  pub mnc : Bytes

pub record Slice : Type 0 where
  pub sst : Bytes
  pub sd : Bytes

pub record GnbAmf : Type 0 where
  pub ip : Bytes
  pub port : ℤ
  pub amf_id : ℕ
  pub connected : Bool  -- `Tnla.SctpConn` holds a connection
  pub capacity : ℕ
  pub state : AmfState
  pub name : Bytes
  pub region_id : BitString
  pub set_id : BitString
  pub pointer : BitString
  pub plmns : List Plmn
  pub slices : List Slice
  pub len_slice : ℕ
  pub len_plmn : ℕ

module _ {ℓ} {A : Type ℓ} (new_elem : Run A) where
  -- `for range n`, from the cursor `mov`: a new element behind the last one, or one step on.
  unfoldable pub append_loop : ℕ → ℕ → List A → Run (List A)
  append_loop zero mov xs = done xs
  append_loop (suc n) mov xs =
      let grow = new_elem >>= λ e. append_loop n mov (xs ++ e ∷ []) in
      let move = append_loop n (suc mov) xs in if suc mov == length xs then grow else move

  -- The list after a call of `AddedPlmn` or `AddedSlice` with the counter `n`.
  unfoldable pub added : ℕ → List A → Run (List A)
  unfolding append_loop
  added zero xs = new_elem >>= λ e. done (e ∷ [])
  added (suc n) [] = panic
  added (suc n) (x ∷ xs) = append_loop (suc n) 0 (x ∷ xs)

new_plmn : Bytes → Run Plmn
new_plmn plmn = do (mcc, mnc) ← convert_mcc_mnc plmn; done (record { mcc = mcc; mnc = mnc })

unfoldable pub added_plmn : GnbAmf → Bytes → Run GnbAmf
unfolding new_plmn
added_plmn amf plmn = do
  plmns ← added (new_plmn plmn) amf.len_plmn amf.plmns
  done (record amf { plmns = plmns; len_plmn = amf.len_plmn + 1 })

unfoldable pub added_slice : GnbAmf → Bytes → Bytes → Run GnbAmf
added_slice amf sst sd = do
  slices ← added (done (record { sst = sst; sd = sd })) amf.len_slice amf.slices
  done (record amf { slices = slices; len_slice = amf.len_slice + 1 })

-- `for range index { mov = mov.Next }`, then the fields: past the end is a nil dereference.
unfoldable pub get_plmn_support : GnbAmf → ℕ → Run Plmn
get_plmn_support amf index = must (get_elem? amf.plmns index)

unfoldable pub get_slice_support : GnbAmf → ℕ → Run Slice
get_slice_support amf index = must (get_elem? amf.slices index)

bit_string : Bytes → BitString
bit_string b = record { octets = b; num_bits = length b * 8 % 2 ^ 64 }

unfoldable pub set_region_id : GnbAmf → Bytes → GnbAmf
unfolding bit_string
set_region_id amf b = record amf { region_id = bit_string b }

unfoldable pub set_set_id : GnbAmf → Bytes → GnbAmf
unfolding bit_string
set_set_id amf b = record amf { set_id = bit_string b }

unfoldable pub set_pointer : GnbAmf → Bytes → GnbAmf
unfolding bit_string
set_pointer amf b = record amf { pointer = bit_string b }

-- The fields of an NG Setup Response that the handler reads.
pub record PlmnSupportItem : Type 0 where
  pub plmn_identity : Bytes
  pub slice_support : List Slice

pub record NgSetupResponse : Type 0 where
  pub amf_name : Bytes
  pub relative_capacity : ℕ
  pub plmn_support : List PlmnSupportItem

unfoldable pub added_slices : GnbAmf → List Slice → Run GnbAmf
added_slices amf [] = done amf
added_slices amf (s ∷ rest) =
    added_slice amf (sprint_hex s.sst) (sprint_hex s.sd) >>= λ amf'. added_slices amf' rest

unfoldable pub added_items : GnbAmf → List PlmnSupportItem → Run GnbAmf
added_items amf [] = done amf
added_items amf (i ∷ rest) = added_plmn amf (sprint_hex i.plmn_identity) >>= λ amf1.
    added_slices amf1 i.slice_support >>= λ amf2. added_items amf2 rest

-- The loops that log the supported PLMNs and slices: `n` rounds from index `i`.
module _ {ℓ} {A : Type ℓ} (get : ℕ → Run A) where
  unfoldable pub log_loop : ℕ → ℕ → Run (Unit {0})
  log_loop zero i = done tt
  log_loop (suc n) i = get i >>= λ _. log_loop n (suc i)

unfoldable pub ng_setup_response : GnbAmf → NgSetupResponse → Run GnbAmf
ng_setup_response amf msg =
    added_items (record amf { name = msg.amf_name; capacity = msg.relative_capacity })
      msg.plmn_support
    >>= λ amf'.
        let amf'' = record amf' { state = active } in
        log_loop (get_plmn_support amf'') amf''.len_plmn 0 >>= λ _.
        log_loop (get_slice_support amf'') amf''.len_slice 0 >>= λ _. done amf''
