-- ===== src/Examples/Keys.antt =====
-- The key chain and the NAS keys with derivations that show their inputs.
use central_unit.Base.{◌≡◌, ◌↔◌, refl, ℕ, true, false, [], ◌∷◌, ◌++◌, if◌then◌else◌}
use central_unit.SecCtx.{
  Sec5g, NasLib, SecurityContext, create_an_key, derive_as_keys, derived_kamf, derive_nas_keys,
}
use central_unit.SecCtx.Chain.{next_hop, updates, next_hop_chain}
use central_unit.SecCtx.Nas.{derive_nas_keys_lem}

abbrev sec : Sec5g
sec = record {
  ran_key = λ k p0 p1. (p0 ++ p1, true);
  nh_key = λ k s. (7 ∷ s, true);
  kamf_prime = λ k p0 p1. (p0, true);
  access_3gpp = 1;
  access_non_3gpp = 2;
}

abbrev nas : NasLib ℕ
nas = record {
  new_nas_context = λ b. 0;
  ul_counter = λ n. n;
  dl_counter = λ n. n;
  derive_keys = λ enc int kamf n. (0, true);
}

abbrev ctx : SecurityContext ℕ
ctx = record {
  is_amf = false;
  gpp_nas = 4;
  non_gpp_nas = 5;
  ng_ksi = record { tsc = 0; id = 1 };
  kamf = 8 ∷ [];
  kgnb = [];
  kn3iwf = [];
  nh = [];
  ncc = 0;
}

derive_nas_keys_lem_example :
    (let kamf = derived_kamf nas sec ctx 1 in
      let out = derive_nas_keys nas sec ctx 2 2 1 in
      ((out.1 ≡ true) ↔ ((kamf.1 ≡ true) × (true ≡ true) × (true ≡ true)))
      × (out.0.kamf ≡ (if out.1 then kamf.0 else 8 ∷ []))
      × (out.0.nh ≡ ctx.nh)
      × (out.0.kgnb ≡ ctx.kgnb)
      × (out.0.kn3iwf ≡ ctx.kn3iwf)
      × (out.0.ncc ≡ 0)
      × (out.0.ng_ksi ≡ ctx.ng_ksi))
derive_nas_keys_lem_example = derive_nas_keys_lem nas sec ctx 2 2 1

next_hop_chain_example :
    (let out = updates nas sec 9 (derive_as_keys nas sec ctx).0 in
      (out.ncc ≡ 2)
      × (out.nh ≡ next_hop sec (8 ∷ []) (create_an_key nas sec ctx).0.kgnb 9)
      × (out.kamf ≡ 8 ∷ []))
unfolding create_an_key
next_hop_chain_example = next_hop_chain nas sec ctx 9 refl
