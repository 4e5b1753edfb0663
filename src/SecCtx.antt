-- ===== src/SecCtx.antt =====
-- The security context of internal/context/uecontext/secctx.go. The NAS contexts of
-- github.com/reogac/nas and the key derivations of github.com/reogac/utils/sec5g are parameters; a
-- derivation answers with its value and whether its error is nil.
pub mod Chain
pub mod Nas
use central_unit.Base.{
  ℕ, zero, suc, ◌+◌, ◌%◌, ◌^◌, bit_and, Bool, true, false, not, ◌&&◌, List, [], ◌∷◌, ◌==◌,
  if◌then◌else◌,
}
use central_unit.Bytes.{Bytes, put_be}

pub record Sec5g : Type 0 where
  pub ran_key : (kamf p0 p1 : Bytes) → Bytes × Bool
  pub nh_key : (kamf sync : Bytes) → Bytes × Bool
  pub kamf_prime : (kamf p0 p1 : Bytes) → Bytes × Bool
  pub access_3gpp : ℕ
  pub access_non_3gpp : ℕ

-- `derive_keys` gives the context that it leaves, and whether the error is nil.
pub record NasLib (Nas : Type 0) : Type 0 where
  pub new_nas_context : Bool → Nas
  pub ul_counter : Nas → ℕ
  pub dl_counter : Nas → ℕ
  pub derive_keys : (enc int : ℕ) (kamf : Bytes) → Nas → Nas × Bool

pub record KeySetIdentifier : Type 0 where
  pub tsc : ℕ
  pub id : ℕ

pub record SecurityContext (Nas : Type 0) : Type 0 where
  pub is_amf : Bool
  pub gpp_nas : Nas
  pub non_gpp_nas : Nas
  pub ng_ksi : KeySetIdentifier
  pub kamf : Bytes
  pub kgnb : Bytes
  pub kn3iwf : Bytes
  pub nh : Bytes
  pub ncc : ℕ

abbrev pub hdp_handover : ℕ
hdp_handover = 1

abbrev pub hdp_mobility_update : ℕ
hdp_mobility_update = 2

unfoldable pub nas_context : {Nas : Type 0} → SecurityContext Nas → Bool → Nas
nas_context ctx is_gpp = if is_gpp then ctx.gpp_nas else ctx.non_gpp_nas

unfoldable pub match_ng_ksi : {Nas : Type 0} → SecurityContext Nas → KeySetIdentifier → Bool
match_ng_ksi ctx ksi = ctx.ng_ksi.tsc == ksi.tsc && ctx.ng_ksi.id == ksi.id

module _ {Nas : Type 0} (lib : NasLib Nas) (sec : Sec5g) where
  unfoldable pub new_security_context : KeySetIdentifier → Bytes → Bool → SecurityContext Nas
  new_security_context ksi kamf is_amf = record {
    is_amf = is_amf;
    gpp_nas = lib.new_nas_context is_amf;
    non_gpp_nas = lib.new_nas_context is_amf;
    ng_ksi = ksi;
    kamf = kamf;
    kgnb = [];
    kn3iwf = [];
    nh = [];
    ncc = 0;
  }

  unfoldable pub create_an_key : SecurityContext Nas → SecurityContext Nas × Bool
  create_an_key ctx =
      let gnb =
        sec.ran_key ctx.kamf (put_be 4 (lib.ul_counter ctx.gpp_nas)) (sec.access_3gpp ∷ []) in
      let n3iwf =
        sec.ran_key ctx.kamf (put_be 4 (lib.ul_counter ctx.non_gpp_nas))
          (sec.access_non_3gpp ∷ []) in
      if not gnb.1
      then (record ctx { kgnb = gnb.0 }, false)
      else (record ctx { kgnb = gnb.0; kn3iwf = n3iwf.0 }, n3iwf.1)

  unfoldable pub create_nh : SecurityContext Nas → Bytes → SecurityContext Nas × Bool
  create_nh ctx sync = let nh = sec.nh_key ctx.kamf sync in (record ctx { nh = nh.0 }, nh.1)

  unfoldable pub derive_as_keys : SecurityContext Nas → SecurityContext Nas × Bool
  unfolding create_an_key create_nh
  derive_as_keys ctx =
      let an = create_an_key ctx in
      let next = create_nh an.0 an.0.kgnb in
      if not an.1 then an else (record next.0 { ncc = 1 }, next.1)

  -- `ctx.ncc++` on a uint8, then `&= 0x07`
  unfoldable pub update_nh : SecurityContext Nas → SecurityContext Nas × Bool
  unfolding create_nh
  update_nh ctx =
      let ctx' = record ctx { ncc = bit_and ((ctx.ncc + 1) % 2 ^ 8) 0x07 } in create_nh ctx' ctx'.nh

  unfoldable pub derived_kamf : SecurityContext Nas → ℕ → Bytes × Bool
  derived_kamf ctx hdp =
      if hdp == hdp_handover
      then sec.kamf_prime ctx.kamf (0x01 ∷ []) (put_be 4 (lib.dl_counter ctx.gpp_nas))
      else if hdp == hdp_mobility_update
      then sec.kamf_prime ctx.kamf (0x00 ∷ []) (put_be 4 (lib.ul_counter ctx.gpp_nas))
      else (ctx.kamf, true)

  unfoldable pub derive_nas_keys : SecurityContext Nas → ℕ → ℕ → ℕ → SecurityContext Nas × Bool
  unfolding derived_kamf
  derive_nas_keys ctx enc int hdp =
      let kamf = derived_kamf ctx hdp in
      let gpp = lib.derive_keys enc int kamf.0 ctx.gpp_nas in
      let non_gpp = lib.derive_keys enc int kamf.0 ctx.non_gpp_nas in
      if not kamf.1
      then (ctx, false)
      else if not gpp.1
      then (record ctx { gpp_nas = gpp.0 }, false)
      else if not non_gpp.1
      then (record ctx { gpp_nas = gpp.0; non_gpp_nas = non_gpp.0 }, false)
      else (record ctx { gpp_nas = gpp.0; non_gpp_nas = non_gpp.0; kamf = kamf.0 }, true)
