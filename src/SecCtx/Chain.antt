-- ===== src/SecCtx/Chain.antt =====
-- The next hop chain of TS 33.501, A.10.
use central_unit.Base.{ℕ, zero, suc, ◌+◌, ◌%◌, ◌^◌, ◌≡◌, ◌∙◌, ap, refl, true, arith}
use central_unit.Base.Bits.{bit_and_mask}
use central_unit.Bytes.{Bytes}
use central_unit.SecCtx.{
  Sec5g, NasLib, SecurityContext, create_an_key, create_nh, derive_as_keys, update_nh,
}

-- NH derived n times from K_AMF, with K_gNB as the first synchronisation input.
pub next_hop : Sec5g → Bytes → Bytes → ℕ → Bytes
next_hop sec kamf kgnb zero = (sec.nh_key kamf kgnb).0
next_hop sec kamf kgnb (suc n) = (sec.nh_key kamf (next_hop sec kamf kgnb n)).0

module _ {Nas : Type 0} (lib : NasLib Nas) (sec : Sec5g) where
  -- n calls of `UpdateNh`.
  pub updates : ℕ → SecurityContext Nas → SecurityContext Nas
  updates zero ctx = ctx
  updates (suc n) ctx = (update_nh lib sec (updates n ctx)).0

  -- What a call of `UpdateNh` leaves, whether NH could be derived or not.
  update_nh_lem :
      (ctx : SecurityContext Nas)
      → (let out = (update_nh lib sec ctx).0 in
          (out.ncc ≡ (ctx.ncc + 1) % 8)
          × (out.nh ≡ (sec.nh_key ctx.kamf ctx.nh).0)
          × (out.kamf ≡ ctx.kamf)
          × (out.kgnb ≡ ctx.kgnb))
  unfolding update_nh create_nh
  update_nh_lem ctx = (bit_and_mask 3 ((ctx.ncc + 1) % 2 ^ 8) ∙ wrapped ctx.ncc, refl, refl, refl)
    where
      wrapped : (n : ℕ) → (n + 1) % 2 ^ 8 % 2 ^ 3 ≡ (n + 1) % 8
      wrapped n = omega arith

  record IsLink (ctx0 : SecurityContext Nas) (n : ℕ) (ctx : SecurityContext Nas) : Type 0 where
    ncc : ctx.ncc ≡ (n + 1) % 8
    nh : ctx.nh ≡ next_hop sec ctx0.kamf ctx.kgnb n
    kamf : ctx.kamf ≡ ctx0.kamf
    kgnb : ctx.kgnb ≡ (create_an_key lib sec ctx0).0.kgnb

  derived-IsLink :
      (ctx : SecurityContext Nas)
      → (create_an_key lib sec ctx).1 ≡ true
      → IsLink ctx 0 (derive_as_keys lib sec ctx).0
  unfolding derive_as_keys create_nh next_hop create_an_key
  derived-IsLink ctx h = record {
    ncc = ground arith;
    nh = ground arith;
    kamf = ground arith;
    kgnb = ground arith;
  }

  updates-IsLink :
      (ctx : SecurityContext Nas) (n : ℕ)
      → (create_an_key lib sec ctx).1 ≡ true
      → IsLink ctx n (updates n (derive_as_keys lib sec ctx).0)
  unfolding updates next_hop
  updates-IsLink ctx zero h = derived-IsLink ctx h
  updates-IsLink ctx (suc n) h =
      let l = updates-IsLink ctx n h in
      let u = update_nh_lem (updates n (derive_as_keys lib sec ctx).0) in
      record {
        ncc = omega (arith, u.0, l.ncc);
        nh = cc (u.1, u.3, l.nh, l.kamf);
        kamf = u.2 ∙ l.kamf;
        kgnb = u.3 ∙ l.kgnb;
      }

-- The chain. Once the keys of the access networks have been derived, n updates leave the counter at
-- n + 1 modulo 8, and NH as K_AMF derived n + 1 times, K_gNB being the first input.
pub next_hop_chain :
    {Nas : Type 0} (lib : NasLib Nas) (sec : Sec5g) (ctx : SecurityContext Nas) (n : ℕ)
    → (create_an_key lib sec ctx).1 ≡ true
    → (let out = updates lib sec n (derive_as_keys lib sec ctx).0 in
        (out.ncc ≡ (n + 1) % 8)
        × (out.nh ≡ next_hop sec ctx.kamf (create_an_key lib sec ctx).0.kgnb n)
        × (out.kamf ≡ ctx.kamf))
next_hop_chain lib sec ctx n h =
    let l = updates-IsLink lib sec ctx n h in
    (l.ncc, l.nh ∙ ap (λ t. next_hop sec ctx.kamf t n) l.kgnb, l.kamf)
