-- ===== src/Cu/Attach/Register.antt =====
-- The attachment of a UE with a 5G-S-TMSI: RRC Setup Request and RRC Setup Complete, one after the
-- other (`handleInitialULRRCMessageTransfer` and `handleULRRCMessageTransfer` of
-- internal/context/protocol_f1c.go with the handlers that they call).
use central_unit.Base.{
  ℕ, ◌+◌, ◌%◌, ◌^◌, ◌≡◌, refl, false, true, [], ◌∷◌, ◌++◌, append_assoc, ◌∙◌, ap, some, done, ◌>>=◌,
  arith,
}
use central_unit.Bytes.{Bytes}
use central_unit.Asn1.{BitString, FiveGsTmsi, build_5gs_tmsi, decode_5gs_tmsi}
use central_unit.Wire.{
  Env, CellGroupConfig, InitialUlRrc, UlRrc, s_tmsi_part1, part2, rrc_setup_complete, rrc_setup,
  dl_rrc_transfer, initial_ue_message,
}
use central_unit.Ue.{Ue, ongoing}
use central_unit.Du.{GnbDu}
use central_unit.Amf.{GnbAmf}
use central_unit.Cu.{CuCp, ok, location, new_ue, create_ue, send_ngap, send_f1ap, to_amf, to_du}
use central_unit.Cu.Rrc.{
  accept_setup, send_rrc_setup, with_part1, identity_bits, handle_rrc_setup_request,
  handle_rrc_setup_complete, learn_tmsi, tmsi_bytes, take_tmsi, register, send_nas_pdu, send_nas_in,
  send_encoded,
}
use central_unit.Cu.F1.{
  bad_srb, handle_initial_ul_rrc, handle_ul_rrc, decode_dcch, open_dcch, dispatch_dcch,
}

-- The UE that the RRC Setup Request makes.
admitted : CuCp → GnbDu → GnbAmf → InitialUlRrc → BitString → CellGroupConfig → ℕ → Ue
unfolding new_ue
admitted cu du amf msg part1 group cause =
    record (new_ue du.du_id msg.c_rnti part1.octets msg.gnb_du_ue_id cu.id_rrc_ue_generator
      amf.amf_id) {
        tmsi_part1 = some part1;
        master_cell_group = some group;
        establishment_cause = some cause;
        nr_cell_id = some msg.nr_cell_identity;
      }

module _ (env : Env) (cu : CuCp) (du : GnbDu) (amf : GnbAmf) (socket : ℕ) (request : InitialUlRrc)
    (part1 p2 : BitString) (group : CellGroupConfig) (cause : ℕ)
    (container setup setup_pdu : Bytes) where
  admit :
      cu.amf ≡ some amf
      → cu.du ≡ some du
      → du.conn ≡ some socket
      → request.du_to_cu_container ≡ some container
      → env.decode_cell_group container ≡ some group
      → env.decode_ul_ccch request.rrc_container
        ≡ some (record {
          c1 =
              some
                (some (record { ue_identity = s_tmsi_part1 part1; establishment_cause = cause }));
        })
      → env.rrc_encode (rrc_setup 1 container) ≡ some setup
      → env.f1_encode (
          dl_rrc_transfer (record {
            gnb_cu_ue_id = cu.id_rrc_ue_generator;
            gnb_du_ue_id = request.gnb_du_ue_id;
            srb_id = 0;
            rrc_container = setup;
          }))
        ≡ some setup_pdu
      → handle_initial_ul_rrc env cu request
        ≡ done (record cu {
          ue = some (admitted cu du amf request part1 group cause);
          id_rrc_ue_generator = (cu.id_rrc_ue_generator + 1) % 2 ^ 64;
          writes = cu.writes ++ to_du socket setup_pdu ∷ [];
        })
  unfolding handle_initial_ul_rrc handle_rrc_setup_request accept_setup send_rrc_setup send_f1ap
      create_ue with_part1 identity_bits admitted new_ue
  admit ha hd hs hc hg hm he hf = ground arith

module _ (env : Env) (cu : CuCp) (ue : Ue) (amf : GnbAmf) (complete : UlRrc)
    (part1 second : BitString) (tmsi : FiveGsTmsi) (nas message : Bytes) where
  registered : Ue
  registered = record ue {
    tmsi = some tmsi;
    random_identity = build_5gs_tmsi second part1;
    state = ongoing;
  }

  take_tmsi_ok :
      (b : Bytes)
      → decode_5gs_tmsi b ≡ some tmsi
      → take_tmsi ue b ≡ (record ue { tmsi = some tmsi; random_identity = b }, ok)
  take_tmsi_ok [] h = unfold decode_5gs_tmsi in cc
  take_tmsi_ok (b ∷ bs) h = rw (h, take_tmsi) refl

  learn_tmsi-part2 :
      ue.tmsi_part1 ≡ some part1
      → decode_5gs_tmsi (build_5gs_tmsi second part1) ≡ some tmsi
      → learn_tmsi ue (some (part2 second))
        ≡ done (record ue { tmsi = some tmsi; random_identity = build_5gs_tmsi second part1 }, ok)
  unfolding learn_tmsi tmsi_bytes
  learn_tmsi-part2 h d = ground (arith, h, take_tmsi_ok (build_5gs_tmsi second part1) d)

  complete_setup :
      cu.amf ≡ some amf
      → amf.connected ≡ true
      → ue.tmsi_part1 ≡ some part1
      → decode_5gs_tmsi (build_5gs_tmsi second part1) ≡ some tmsi
      → env.ng_encode (initial_ue_message ue.ran_ue_ngap_id nas (location env cu) (some tmsi))
        ≡ some message
      → handle_rrc_setup_complete env cu ue
          (some (record { tmsi_value = some (part2 second); dedicated_nas = nas }))
        ≡ done (record cu { ue = some registered; writes = cu.writes ++ to_amf message ∷ [] }, ok)
  unfolding handle_rrc_setup_complete register send_nas_pdu send_nas_in send_encoded send_ngap
      registered
  complete_setup ha hc h d he = ground (arith, learn_tmsi-part2 h d)

  deliver :
      cu.ue ≡ some ue
      → cu.amf ≡ some amf
      → amf.connected ≡ true
      → complete.gnb_du_ue_id ≡ ue.du_ue_id
      → bad_srb complete.srb_id ≡ false
      → env.decode_ul_dcch complete.rrc_container
        ≡ some (record {
          choice = 1;
          c1 = some (
              rrc_setup_complete
                (some (some (record { tmsi_value = some (part2 second); dedicated_nas = nas }))));
        })
      → ue.tmsi_part1 ≡ some part1
      → decode_5gs_tmsi (build_5gs_tmsi second part1) ≡ some tmsi
      → env.ng_encode (initial_ue_message ue.ran_ue_ngap_id nas (location env cu) (some tmsi))
        ≡ some message
      → handle_ul_rrc env cu complete
        ≡ done (record cu { ue = some registered; writes = cu.writes ++ to_amf message ∷ [] })
  unfolding handle_ul_rrc decode_dcch open_dcch dispatch_dcch
  deliver hu ha hc hid hs hm h d he = ground (arith, complete_setup ha hc h d he)

-- A UE that sends the first half of its 5G-S-TMSI in an RRC Setup Request and the second half in
-- the RRC Setup Complete is registered with the AMF: over the two messages exactly two writes are
-- made, the RRC Setup to the DU under the next RRC identifier, then the Initial UE Message to the
-- AMF with the joined identity. The UE that is left is ongoing, with that identity. The condition
-- is that the messages decode, that the answers encode, and that the AMF and the DU are connected.
pub attach_registers :
    (env : Env) (cu : CuCp) (du : GnbDu) (amf : GnbAmf) (socket : ℕ) (request : InitialUlRrc)
    (part1 second : BitString) (group : CellGroupConfig) (cause : ℕ)
    (container setup setup_pdu : Bytes) (complete : UlRrc) (tmsi : FiveGsTmsi) (nas message : Bytes)
    → cu.amf ≡ some amf
    → cu.du ≡ some du
    → du.conn ≡ some socket
    → amf.connected ≡ true
    → request.du_to_cu_container ≡ some container
    → env.decode_cell_group container ≡ some group
    → env.decode_ul_ccch request.rrc_container
      ≡ some (record {
        c1 = some (some (record { ue_identity = s_tmsi_part1 part1; establishment_cause = cause }));
      })
    → env.rrc_encode (rrc_setup 1 container) ≡ some setup
    → env.f1_encode (
        dl_rrc_transfer (record {
          gnb_cu_ue_id = cu.id_rrc_ue_generator;
          gnb_du_ue_id = request.gnb_du_ue_id;
          srb_id = 0;
          rrc_container = setup;
        }))
      ≡ some setup_pdu
    → complete.gnb_du_ue_id ≡ request.gnb_du_ue_id
    → bad_srb complete.srb_id ≡ false
    → env.decode_ul_dcch complete.rrc_container
      ≡ some (record {
        choice = 1;
        c1 = some (
            rrc_setup_complete
              (some (some (record { tmsi_value = some (part2 second); dedicated_nas = nas }))));
      })
    → decode_5gs_tmsi (build_5gs_tmsi second part1) ≡ some tmsi
    → env.ng_encode (initial_ue_message 1 nas (location env cu) (some tmsi)) ≡ some message
    → (ue : Ue) × (ue.state ≡ ongoing)
      × (ue.tmsi ≡ some tmsi)
      × (ue.rrc_ue_id ≡ cu.id_rrc_ue_generator)
      × ((handle_initial_ul_rrc env cu request >>= λ cu'. handle_ul_rrc env cu' complete)
          ≡ done (record cu {
            ue = some ue;
            id_rrc_ue_generator = (cu.id_rrc_ue_generator + 1) % 2 ^ 64;
            writes = cu.writes ++ to_du socket setup_pdu ∷ to_amf message ∷ [];
          }))
unfolding registered admitted new_ue
attach_registers env cu du amf socket request part1 second group cause container setup setup_pdu
      complete tmsi nas message ha hd hs hc hdc hg hm he hf hid hb hm2 hd2 hn =
    let ue = admitted cu du amf request part1 group cause in
    let cu1 = record cu {
      ue = some ue;
      id_rrc_ue_generator = (cu.id_rrc_ue_generator + 1) % 2 ^ 64;
      writes = cu.writes ++ to_du socket setup_pdu ∷ [];
    } in
    let first_step =
      admit env cu du amf socket request part1 second group cause container setup setup_pdu ha hd hs
        hdc hg hm he hf in
    let second_step =
      deliver env cu1 ue amf complete part1 second tmsi nas message refl ha hc hid hb hm2 refl hd2
        (unfold location in hn) in
    (
      registered env cu1 ue amf complete part1 second tmsi nas message,
      refl,
      refl,
      refl,
      rw first_step (
          second_step
          ∙ ap
              (λ w. done (record cu1 {
                ue = some (registered env cu1 ue amf complete part1 second tmsi nas message);
                writes = w;
              }))
              (append_assoc cu.writes (to_du socket setup_pdu ∷ []) (to_amf message ∷ []))),
    )
