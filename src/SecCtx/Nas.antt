-- ===== src/SecCtx/Nas.antt =====
-- The NAS keys and K_AMF.
use central_unit.Base.{ℕ, ◌≡◌, ◌↔◌, true, if◌then◌else◌, arith}
use central_unit.SecCtx.{Sec5g, NasLib, SecurityContext, derived_kamf, derive_nas_keys}

-- The NAS keys are derived if and only if K_AMF and both contexts' keys are. Only then is K_AMF
-- replaced; in every case the AS keys, the counter and the key set identifier stay as they are.
pub derive_nas_keys_lem :
    {Nas : Type 0} (lib : NasLib Nas) (sec : Sec5g) (ctx : SecurityContext Nas) (enc int hdp : ℕ)
    → (let kamf = derived_kamf lib sec ctx hdp in
        let out = derive_nas_keys lib sec ctx enc int hdp in
        ((out.1 ≡ true) ↔ (
          (kamf.1 ≡ true)
          × ((lib.derive_keys enc int kamf.0 ctx.gpp_nas).1 ≡ true)
          × ((lib.derive_keys enc int kamf.0 ctx.non_gpp_nas).1 ≡ true)))
        × (out.0.kamf ≡ (if out.1 then kamf.0 else ctx.kamf))
        × (out.0.nh ≡ ctx.nh)
        × (out.0.kgnb ≡ ctx.kgnb)
        × (out.0.kn3iwf ≡ ctx.kn3iwf)
        × (out.0.ncc ≡ ctx.ncc)
        × (out.0.ng_ksi ≡ ctx.ng_ksi))
unfolding derive_nas_keys
derive_nas_keys_lem lib sec ctx enc int hdp = ground arith
