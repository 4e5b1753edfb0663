-- ===== src/Examples/Context/Attachment.antt =====
-- The messages of one UE.
use central_unit.Base.{
  ◌==◌, if◌then◌else◌, ◌≤◌, ◌<◌, ◌^◌, ◌≡◌, ◌≢◌, refl, ap, length, [], ◌∷◌, Option, none, some, done,
  ◌>>=◌, arith,
}
use central_unit.Bytes.{Bytes, equal, put_be}
use central_unit.Asn1.{FiveGsTmsi, decode_5gs_tmsi, build_5gs_tmsi, strip_zeros}
use central_unit.Ue.{Ue, ongoing, ready, initialized, not_informed, create_ue_context}
use central_unit.Du.{GnbDu, du_active}
use central_unit.Cu.{CuCp, get_octets, ok, send_ngap, to_amf, to_du}
use central_unit.Cu.F1.{
  handle_ue_context_setup_response, handle_initial_ul_rrc, handle_ul_rrc, decode_dcch, open_dcch,
  dispatch_dcch,
}
use central_unit.Cu.Rrc.{
  handle_ul_information_transfer, handle_rrc_reconfiguration_complete, handle_rrc_setup_complete,
  learn_tmsi, register, send_nas_pdu, send_encoded,
}
use central_unit.Cu.Ngap.{handle_downlink_nas, handle_context_setup}
use central_unit.Cu.Attach.Uplink.{handle_ul_rrc_guard, downlink_ignores_ue}
use central_unit.Wire.{
  Env, ContextSetup, UlRrc, UlDcchC1, other_c1, security_mode_complete,
  rrc_reconfiguration_complete,
}
use central_unit.Cu.Attach.Complete.{IsPrepared, attach_completes}
use central_unit.Plmn.{get_mcc_and_mnc_in_octets}
use central_unit.Bytes.Hex.{decode_string, from_hex_char}
use central_unit.Cu.Attach.Register.{attach_registers}
use central_unit.Examples.Context.{
  env, amf, cu, cell, plmn, setup, request, complete, part1, second, nas_down,
}

abbrev du : GnbDu
du = record {
  du_id = 17;
  du_name = [];
  state = du_active;
  conn = some 4;
  setup_req = setup;
  mib = [];
  sib1 = [];
  mtc = [];
  served_cells = [];
}

abbrev with_du : CuCp
with_du = record cu { du = some du }

abbrev ue : Ue
ue = record {
  ran_ue_ngap_id = 1;
  amf_ue_ngap_id = 1;
  amf_id = 0;
  state = initialized;
  rrc_ue_id = 0;
  du_id = 17;
  du_ue_id = 5;
  tmsi_part1 = some part1;
  tmsi = none;
  rnti = 70;
  random_identity = [];
  nr_cell_id = none;
  master_cell_group = none;
  establishment_cause = none;
  registration_accept = [];
  mobility_info = record { mcc = []; mnc = [] };
  masked_imeisv = [];
  allowed_snssai = [];
  security_capabilities = none;
}

abbrev pub with_ue : CuCp
with_ue = record with_du { ue = some ue }

abbrev joined : Option FiveGsTmsi
joined = decode_5gs_tmsi (build_5gs_tmsi second part1)

abbrev tmsi : FiveGsTmsi
tmsi = record {
  amf_set_id = record { octets = 0 ∷ 7 ∷ []; num_bits = 10 };
  amf_pointer = record { octets = 0 ∷ []; num_bits = 9 };
  five_g_tmsi = 0 ∷ 0 ∷ 0 ∷ 7 ∷ [];
}

joins : joined ≡ some tmsi
unfolding decode_5gs_tmsi build_5gs_tmsi strip_zeros
joins = refl

attach_registers_example :
    (u : Ue) × (u.state ≡ ongoing)
    × (u.tmsi ≡ some tmsi)
    × (u.rrc_ue_id ≡ 0)
    × ((handle_initial_ul_rrc env with_du request >>= λ cu'. handle_ul_rrc env cu' complete)
        ≡ done (record with_du {
          ue = some u;
          id_rrc_ue_generator = 1;
          writes = to_du 4 (12 ∷ []) ∷ to_amf (15 ∷ []) ∷ [];
        }))
attach_registers_example =
    attach_registers env with_du du amf 4 request part1 second 9 3 (0xdc ∷ []) (0x28 ∷ []) (12 ∷ [])
      complete tmsi (0x7e ∷ []) (15 ∷ []) refl refl refl refl refl refl refl refl refl refl refl
      refl joins refl

abbrev after : CuCp
after = record with_ue {
  ue = some (record ue {
    tmsi = some tmsi;
    random_identity = build_5gs_tmsi second part1;
    state = ongoing;
  });
  writes = to_amf (15 ∷ []) ∷ [];
}

completed : handle_ul_rrc env with_ue complete ≡ done after
unfolding handle_ul_rrc decode_dcch open_dcch dispatch_dcch handle_rrc_setup_complete learn_tmsi
    register build_5gs_tmsi strip_zeros put_be decode_5gs_tmsi send_nas_pdu send_encoded send_ngap
completed = refl

handle_ul_rrc_guard_example :
    (u : Ue) × (some ue ≡ some u)
    × (5 ≡ u.du_ue_id)
    × (1 ≤ 1)
    × (1 < 2 ^ 63)
    × (env.decode_ul_dcch (1 ∷ []) ≢ none)
handle_ul_rrc_guard_example = handle_ul_rrc_guard env with_ue after complete completed λ p.
    let q : length after.writes ≡ length with_ue.writes = ap (λ c. length c.writes) p in omega arith

downlink_ignores_ue_example :
    (handle_downlink_nas env (record cu { ue = some ue }) nas_down >>= λ c. done c.writes) ≡ (
      handle_downlink_nas env (record cu { ue = some (record ue { du_ue_id = 6 }) }) nas_down
      >>= λ c. done c.writes)
downlink_ignores_ue_example = downlink_ignores_ue env cu ue (record ue { du_ue_id = 6 }) nas_down

abbrev ready_ue : Ue
ready_ue = record ue { state = ready }

abbrev reconfigured : CuCp
reconfigured = record with_ue { ue = some ready_ue; writes = to_amf (14 ∷ []) ∷ [] }

abbrev uplinked : CuCp
uplinked = record with_ue {
  ue = some (record ue { state = ongoing });
  writes = to_amf (14 ∷ []) ∷ to_amf (46 ∷ []) ∷ [];
}

is_reconfigured : handle_rrc_reconfiguration_complete env with_ue ue ≡ done (reconfigured, ok)
unfolding handle_rrc_reconfiguration_complete send_ngap
is_reconfigured = refl

is_uplinked :
    handle_ul_information_transfer env reconfigured ready_ue (some (0x7e ∷ []))
    ≡ done (uplinked, ok)
unfolding handle_ul_information_transfer send_nas_pdu send_encoded send_ngap
is_uplinked = refl

abbrev context : ContextSetup
context = record {
  allowed_nssai = [];
  serving_plmn = none;
  masked_imeisv = none;
  security_capabilities = 0;
  nas_pdu = 0x7e ∷ 0x42 ∷ [];
}

abbrev informed_ue : Ue
informed_ue = record ue {
  mobility_info = record { mcc = not_informed; mnc = not_informed };
  masked_imeisv = not_informed;
  security_capabilities = some 0;
  registration_accept = 0x7e ∷ 0x42 ∷ [];
}

informed : handle_context_setup with_ue context ≡ done (record with_ue { ue = some informed_ue })
unfolding handle_context_setup create_ue_context equal
informed = refl

-- The UE of the cell, and an environment that tells the two uplink messages by their first byte.
abbrev placed_ue : Ue
placed_ue = record ue { nr_cell_id = some cell }

abbrev prepared_ue : Ue
prepared_ue = record informed_ue { nr_cell_id = some cell }

abbrev prepared : CuCp
prepared = record with_du { ue = some prepared_ue }

abbrev uplink : Bytes → UlDcchC1
uplink [] = other_c1
uplink (b ∷ _) =
    if b == 2 then security_mode_complete (some tt) else rrc_reconfiguration_complete (some tt)

abbrev uplink_env : Env
uplink_env = record env { decode_ul_dcch = λ c. some (record { choice = 1; c1 = some (uplink c) }) }

abbrev message : Bytes → UlRrc
message c = record { gnb_cu_ue_id = 0; gnb_du_ue_id = 5; srb_id = 1; rrc_container = c }

placed_informed :
    handle_context_setup (record with_du { ue = some placed_ue }) context ≡ done prepared
unfolding handle_context_setup create_ue_context equal
placed_informed = refl

is_prepared :
    IsPrepared uplink_env prepared prepared_ue du amf 4 cell plmn
      (0x7e ∷ 0x42 ∷ [])
      (0x28 ∷ [])
      (5 ∷ [])
      (0x28 ∷ [])
      (14 ∷ [])
unfolding get_octets get_mcc_and_mnc_in_octets decode_string from_hex_char
is_prepared = record {
  has_ue = refl;
  has_du = refl;
  has_socket = refl;
  has_amf = refl;
  connected = refl;
  has_cell = refl;
  octets = refl;
  group_encoded = refl;
  request_encoded = refl;
  accept_encoded = refl;
  response_encoded = refl;
}

attach_completes_example :
    (handle_ul_rrc uplink_env prepared (message (2 ∷ [])) >>= λ cu1.
    handle_ue_context_setup_response uplink_env cu1 >>= λ cu2.
    handle_ul_rrc uplink_env cu2 (message (3 ∷ [])))
    ≡ done (record prepared {
      ue = some (record prepared_ue { state = ready });
      writes = to_du 4 (5 ∷ []) ∷ to_du 4 (0x28 ∷ []) ∷ to_amf (14 ∷ []) ∷ [];
    })
attach_completes_example =
    attach_completes uplink_env (record with_du { ue = some placed_ue }) prepared context
      prepared_ue du amf 4 cell plmn (0x28 ∷ []) (5 ∷ []) (0x28 ∷ []) (14 ∷ []) (message (2 ∷ []))
      (message (3 ∷ [])) placed_informed is_prepared
      (record { from_ue = refl; bearer = refl; decoded = refl })
      (record { from_ue = refl; bearer = refl; decoded = refl })
