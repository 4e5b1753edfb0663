-- ===== src/Amf/Support.antt =====
-- The counters of an AMF context are the lengths of its two lists, and then each addition puts
-- exactly one element at the end, and every index below the counter can be read.
use central_unit.Base.{
  ℕ, zero, suc, ◌+◌, ◌≡◌, refl, List, [], ◌∷◌, ◌++◌, length, Run, done, ◌>>=◌, arith,
}
use central_unit.Bytes.{Bytes}
use central_unit.Plmn.{convert_mcc_mnc}
use central_unit.Amf.{GnbAmf, append_loop, added, new_plmn, added_plmn, added_slice}

pub record IsLinked (amf : GnbAmf) : Type 0 where
  pub plmns_counted : amf.len_plmn ≡ length amf.plmns
  pub slices_counted : amf.len_slice ≡ length amf.slices

module _ {ℓ} {A : Type ℓ} (new_elem : Run A) where
  -- With n elements from the cursor on, n rounds reach the end and add there.
  append_loop-end :
      (n mov : ℕ) (xs : List A)
      → suc n + mov ≡ length xs
      → append_loop new_elem (suc n) mov xs ≡ (new_elem >>= λ e. done (xs ++ e ∷ []))
  unfolding append_loop
  append_loop-end zero mov xs h = ground arith
  append_loop-end (suc n) mov xs h = ground (arith, append_loop-end n (suc mov) xs)

  pub added-counted :
      (xs : List A) → added new_elem (length xs) xs ≡ (new_elem >>= λ e. done (xs ++ e ∷ []))
  unfolding added
  added-counted [] = refl
  added-counted (x ∷ xs) = append_loop-end (length xs) 0 (x ∷ xs) (omega arith)

-- On a context whose counters are right, `AddedPlmn` of a PLMN that converts puts it at the end of
-- the list and counts it; if the conversion panics, so does the call.
pub added_plmn_lem :
    (amf : GnbAmf) (plmn : Bytes)
    → IsLinked amf
    → added_plmn amf plmn ≡ (
        convert_mcc_mnc plmn >>= λ p. done (record amf {
          plmns = amf.plmns ++ (record { mcc = p.0; mnc = p.1 }) ∷ [];
          len_plmn = amf.len_plmn + 1;
        }))
unfolding added_plmn
added_plmn_lem amf plmn h = ground (arith, added-counted (new_plmn plmn) amf.plmns)

pub added_slice_lem :
    (amf : GnbAmf) (sst sd : Bytes)
    → IsLinked amf
    → added_slice amf sst sd
      ≡ done (record amf {
        slices = amf.slices ++ (record { sst = sst; sd = sd }) ∷ [];
        len_slice = amf.len_slice + 1;
      })
unfolding added_slice
added_slice_lem amf sst sd h =
    rw (h.slices_counted, added-counted (done (record { sst = sst; sd = sd })) amf.slices)
