-- ===== src/Amf/Setup.antt =====
-- What an NG Setup Response leaves in the AMF context.
use central_unit.Base.{
  ℕ, zero, suc, ◌+◌, ◌≤◌, ◌≡◌, refl, sym, ◌∙◌, ap, List, [], ◌∷◌, ◌++◌, map, length, get_elem?,
  append_assoc, append-nil, length-append, Run, done, must, ◌>>=◌, >>=-congr, >>=-fuse, ◌<◌, arith,
}
use central_unit.Bytes.{Bytes}
use central_unit.Bytes.Hex.{sprint_hex}
use central_unit.Plmn.{convert_mcc_mnc}
use central_unit.Amf.{
  active, Plmn, Slice, GnbAmf, PlmnSupportItem, NgSetupResponse, added_plmn, added_slice,
  added_slices, added_items, log_loop, ng_setup_response, get_plmn_support, get_slice_support,
}
use central_unit.Amf.Support.{IsLinked, added_plmn_lem, added_slice_lem}

-- The PLMNs and the slices that a response announces, in its order.
abbrev pub announced_plmns : List PlmnSupportItem → Run (List Plmn)
announced_plmns [] = done []
announced_plmns (i ∷ rest) = convert_mcc_mnc (sprint_hex i.plmn_identity) >>= λ p.
    announced_plmns rest >>= λ ps. done ((record { mcc = p.0; mnc = p.1 }) ∷ ps)

abbrev pub hex_slice : Slice → Slice
hex_slice s = record { sst = sprint_hex s.sst; sd = sprint_hex s.sd }

abbrev pub announced_slices : List PlmnSupportItem → List Slice
announced_slices [] = []
announced_slices (i ∷ rest) = map hex_slice i.slice_support ++ announced_slices rest

abbrev pub with_lists : GnbAmf → List Plmn → List Slice → GnbAmf
with_lists amf ps ss = record amf {
  plmns = amf.plmns ++ ps;
  slices = amf.slices ++ ss;
  len_plmn = amf.len_plmn + length ps;
  len_slice = amf.len_slice + length ss;
}

with_lists-IsLinked :
    (amf : GnbAmf) (ps : List Plmn) (ss : List Slice)
    → IsLinked amf
    → IsLinked (with_lists amf ps ss)
with_lists-IsLinked amf ps ss h =
    omega (arith, length-append amf.plmns ps, length-append amf.slices ss)

with_lists-nil : (amf : GnbAmf) → with_lists amf [] [] ≡ amf
with_lists-nil amf = ground (arith, append-nil amf.plmns, append-nil amf.slices)

with_lists-with_lists :
    (amf : GnbAmf) (ps qs : List Plmn) (ss ts : List Slice)
    → with_lists (with_lists amf ps ss) qs ts ≡ with_lists amf (ps ++ qs) (ss ++ ts)
with_lists-with_lists amf ps qs ss ts = ground (
  arith,
  append_assoc amf.plmns ps qs,
  append_assoc amf.slices ss ts,
  length-append ps qs,
  length-append ss ts,
)

added_one_slice :
    (amf : GnbAmf) (sst sd : Bytes)
    → IsLinked amf
    → added_slice amf sst sd ≡ done (with_lists amf [] (record { sst = sst; sd = sd } ∷ []))
added_one_slice amf sst sd h = added_slice_lem amf sst sd h ∙ ground (arith, append-nil amf.plmns)

added_slices_lem :
    (amf : GnbAmf) (ss : List Slice)
    → IsLinked amf
    → added_slices amf ss ≡ done (with_lists amf [] (map hex_slice ss))
unfolding added_slices
added_slices_lem amf [] h = ap done (sym (with_lists-nil amf))
added_slices_lem amf (s ∷ ss) h =
    let one : List Slice = hex_slice s ∷ [] in
    rw (added_one_slice amf (sprint_hex s.sst) (sprint_hex s.sd) h) (
      added_slices_lem (with_lists amf [] one) ss (with_lists-IsLinked amf [] one h)
      ∙ ap done (with_lists-with_lists amf [] [] one (map hex_slice ss)))

added_one_plmn :
    (amf : GnbAmf) (plmn : Bytes)
    → IsLinked amf
    → added_plmn amf plmn ≡ (
        convert_mcc_mnc plmn >>= λ p.
        done (with_lists amf (record { mcc = p.0; mnc = p.1 } ∷ []) []))
added_one_plmn amf plmn h = added_plmn_lem amf plmn h ∙ ground (arith, append-nil amf.slices)

abbrev plmn_of : Bytes × Bytes → Plmn
plmn_of p = record { mcc = p.0; mnc = p.1 }

-- One item, its PLMN converted, given the statement for the items behind it.
added_item :
    (amf : GnbAmf) (p : Bytes × Bytes) (ss : List Slice) (rest : List PlmnSupportItem)
    → IsLinked amf
    → ((amf' : GnbAmf)
        → IsLinked amf'
        → added_items amf' rest
          ≡ (announced_plmns rest >>= λ ps. done (with_lists amf' ps (announced_slices rest))))
    → (added_slices (with_lists amf (plmn_of p ∷ []) []) ss >>= λ amf2. added_items amf2 rest) ≡ (
        (announced_plmns rest >>= λ ps. done (plmn_of p ∷ ps)) >>= λ ps.
        done (with_lists amf ps (map hex_slice ss ++ announced_slices rest)))
added_item amf p ss rest h ih =
    let amf1 = with_lists amf (plmn_of p ∷ []) [] in
    let linked = with_lists-IsLinked amf (plmn_of p ∷ []) [] h in
    let joined = with_lists-with_lists amf (plmn_of p ∷ []) [] [] (map hex_slice ss) in
    rw
      (
        added_slices_lem amf1 ss linked,
        joined,
        ih (with_lists amf (plmn_of p ∷ []) (map hex_slice ss))
            (with_lists-IsLinked amf (plmn_of p ∷ []) (map hex_slice ss) h),
      )
      (sym (
        >>=-fuse (announced_plmns rest) _ _ _ λ ps. ap done (
          sym (
            with_lists-with_lists amf (plmn_of p ∷ []) ps (map hex_slice ss)
              (announced_slices rest)))))

added_items_lem :
    (amf : GnbAmf) (is : List PlmnSupportItem)
    → IsLinked amf
    → added_items amf is
      ≡ (announced_plmns is >>= λ ps. done (with_lists amf ps (announced_slices is)))
unfolding added_items
added_items_lem amf [] h = ap done (sym (with_lists-nil amf))
added_items_lem amf (i ∷ rest) h = rw (added_one_plmn amf (sprint_hex i.plmn_identity) h) (
    >>=-congr (convert_mcc_mnc (sprint_hex i.plmn_identity)) _ _ _ _
      λ p. added_item amf p i.slice_support rest h (λ amf' h'. added_items_lem amf' rest h'))

must-get_elem? :
    {A : Type 0} (xs : List A) (i : ℕ) → i < length xs → (a : A) × (must (get_elem? xs i) ≡ done a)
must-get_elem? [] i h = absurd (omega arith)
must-get_elem? (x ∷ xs) zero h = (x, refl)
must-get_elem? (x ∷ xs) (suc i) h = must-get_elem? xs i (omega arith)

log_loop-get :
    {A : Type 0} (xs : List A) (n i : ℕ)
    → i + n ≤ length xs
    → log_loop (λ k. must (get_elem? xs k)) n i ≡ done tt
unfolding log_loop
log_loop-get xs zero i h = refl
log_loop-get xs (suc n) i h =
    rw ((must-get_elem? xs i (omega arith)).1) (log_loop-get xs n (suc i) (omega arith))

logged :
    (amf : GnbAmf)
    → IsLinked amf
    → (log_loop (get_plmn_support amf) amf.len_plmn 0 >>= λ _.
        log_loop (get_slice_support amf) amf.len_slice 0 >>= λ _. done amf)
      ≡ done amf
unfolding get_plmn_support get_slice_support
logged amf h =
    ground (arith, log_loop-get amf.plmns amf.len_plmn 0, log_loop-get amf.slices amf.len_slice 0)

abbrev pub set_up : GnbAmf → NgSetupResponse → List Plmn → GnbAmf
set_up amf msg ps = record (with_lists amf ps (announced_slices msg.plmn_support)) {
  name = msg.amf_name;
  capacity = msg.relative_capacity;
  state = active;
}

pub setup-IsLinked :
    (amf : GnbAmf) (msg : NgSetupResponse) (ps : List Plmn)
    → IsLinked amf
    → IsLinked (set_up amf msg ps)
setup-IsLinked amf msg ps h = omega (
  arith,
  length-append amf.plmns ps,
  length-append amf.slices (announced_slices msg.plmn_support),
)

-- On a context whose counters are right, the handler panics exactly when the printed identity of
-- some announced PLMN does not convert. Otherwise it stores the name and the capacity, makes the
-- AMF active, and appends the announced PLMNs and slices to the two lists, in their order.
pub ng_setup_response_lem :
    (amf : GnbAmf) (msg : NgSetupResponse)
    → IsLinked amf
    → ng_setup_response amf msg
      ≡ (announced_plmns msg.plmn_support >>= λ ps. done (set_up amf msg ps))
unfolding ng_setup_response
ng_setup_response_lem amf msg h =
    let amf' = record amf { name = msg.amf_name; capacity = msg.relative_capacity } in
    let linked : IsLinked amf' = omega arith in
    rw (added_items_lem amf' msg.plmn_support linked) (
      >>=-fuse (announced_plmns msg.plmn_support) _ _ _
        λ ps. logged _ (setup-IsLinked amf msg ps h))
