-- ===== src/Examples/Context.antt =====
-- A CU-CP with small message libraries: each message is one byte, and each answer one byte.
pub mod Messages
pub mod Attachment
mod Second
use central_unit.Base.{ℕ, true, List, [], ◌∷◌, Option, none, some, ◌==◌, if◌then◌else◌}
use central_unit.Base.Int.{pos}
use central_unit.Bytes.{Bytes}
use central_unit.Asn1.{BitString, no_bits}
use central_unit.Amf.{GnbAmf, NgSetupResponse, inactive}
use central_unit.Wire.{
  Env, F1Pdu, F1Out, NgOut, NgPdu, RrcOut, F1SetupRequest, ServedCellItem, InitialUlRrc, UlRrc,
  DownlinkNas, f1_setup_request, initial_ul_rrc, ul_rrc, ng_setup_response, downlink_nas,
  s_tmsi_part1, part2, rrc_setup_complete, UlCcch, UlDcch, f1_setup_response, dl_rrc_transfer,
  ue_context_setup_request, ng_setup_request, initial_ue_message, uplink_nas_transport,
  initial_context_setup_response,
}
use central_unit.Du.{GnbDu}
use central_unit.Cu.{CuCp}

abbrev pub plmn : Bytes
plmn = 0x99 ∷ 0xf9 ∷ 0x07 ∷ []

abbrev pub cell : BitString
cell = record { octets = 0 ∷ 0 ∷ 0 ∷ 1 ∷ 0x20 ∷ []; num_bits = 36 }

abbrev pub item : ServedCellItem
item = record {
  nr_cell_identity = cell;
  nr_pci = 1;
  timing_configuration = [];
  served_plmns = plmn ∷ [];
  five_gs_tac = 0 ∷ 0 ∷ 1 ∷ [];
  system_information = none;
}

abbrev pub setup : F1SetupRequest
setup = record {
  transaction_id = 1;
  gnb_du_id = 17;
  gnb_du_name = b'd' ∷ b'u' ∷ [];
  served_cells = item ∷ [];
  rrc_version = 0 ∷ [];
}

abbrev pub no_cells : F1SetupRequest
no_cells = record setup { served_cells = [] }

abbrev pub request : InitialUlRrc
request = record {
  gnb_du_ue_id = 5;
  c_rnti = 70;
  nr_cell_identity = cell;
  rrc_container = 1 ∷ [];
  du_to_cu_container = some (0xdc ∷ []);
}

abbrev pub complete : UlRrc
complete = record { gnb_cu_ue_id = 1; gnb_du_ue_id = 5; srb_id = 1; rrc_container = 1 ∷ [] }

-- Five bytes and two bytes of the 5G-S-TMSI.
abbrev pub part1 : BitString
part1 = record { octets = 0x40 ∷ 0 ∷ 0 ∷ 0 ∷ 7 ∷ []; num_bits = 39 }

abbrev pub second : BitString
second = record { octets = 0 ∷ 3 ∷ []; num_bits = 9 }

abbrev pub answer : NgSetupResponse
answer = record {
  amf_name = b'a' ∷ b'm' ∷ b'f' ∷ [];
  relative_capacity = 255;
  plmn_support =
      record { plmn_identity = plmn; slice_support = record { sst = 1 ∷ []; sd = [] } ∷ [] } ∷ [];
}

abbrev pub nas_down : DownlinkNas
nas_down = record { amf_ue_ngap_id = 33; nas_pdu = 0x7e ∷ [] }

abbrev f1_decode : Bytes → Option F1Pdu
f1_decode [] = none
f1_decode (b ∷ _) =
    if b == 1
    then some (record { present = 1; procedure_code = 1; msg = f1_setup_request setup })
    else if b == 2
    then some (record { present = 1; procedure_code = 11; msg = initial_ul_rrc request })
    else if b == 3
    then some (record { present = 1; procedure_code = 13; msg = ul_rrc complete })
    else if b == 4
    then some (record { present = 1; procedure_code = 1; msg = f1_setup_request no_cells })
    else none

abbrev f1_encode : F1Out → Option Bytes
f1_encode (f1_setup_response _ _ _ _ _) = some (1 ∷ [])
f1_encode (dl_rrc_transfer _) = some (12 ∷ [])
f1_encode (ue_context_setup_request _) = some (5 ∷ [])

abbrev ng_decode : Bytes → Option NgPdu
ng_decode [] = none
ng_decode (b ∷ _) =
    if b == 1
    then some (record { present = 2; procedure_code = 21; msg = ng_setup_response answer })
    else if b == 2
    then some (record { present = 1; procedure_code = 4; msg = downlink_nas nas_down })
    else none

abbrev ng_encode : NgOut → Option Bytes
ng_encode (ng_setup_request _ _ _ _ _) = some (21 ∷ [])
ng_encode (initial_ue_message _ _ _ _) = some (15 ∷ [])
ng_encode (uplink_nas_transport _ _ _ _) = some (46 ∷ [])
ng_encode (initial_context_setup_response _ _) = some (14 ∷ [])

abbrev pub env : Env
env = record {
  f1_decode = f1_decode;
  f1_encode = f1_encode;
  ng_decode = ng_decode;
  ng_encode = ng_encode;
  rrc_encode = λ _. some (0x28 ∷ []);
  decode_ul_ccch = λ _. some (record {
    c1 = some (some (record { ue_identity = s_tmsi_part1 part1; establishment_cause = 3 }));
  });
  decode_ul_dcch = λ _. some (record {
    choice = 1;
    c1 = some (
        rrc_setup_complete
          (some (some (record { tmsi_value = some (part2 second); dedicated_nas = 0x7e ∷ [] }))));
  });
  decode_cell_group = λ _. some 9;
  plmn_id_to_ngap = λ _ _. plmn;
  write_succeeds = λ _ _. true;
  f1_initiating = 1;
  f1_successful = 2;
  f1_unsuccessful = 3;
  f1_setup = 1;
  f1_initial_ul_rrc = 11;
  f1_ul_rrc = 13;
  f1_ue_context_setup = 5;
  ng_initiating = 1;
  ng_successful = 2;
  ng_downlink_nas = 4;
  ng_initial_context_setup = 14;
  ng_setup = 21;
}

abbrev pub amf : GnbAmf
amf = record {
  ip = [];
  port = pos 38412;
  amf_id = 0;
  connected = true;
  capacity = 0;
  state = inactive;
  name = [];
  region_id = no_bits;
  set_id = no_bits;
  pointer = no_bits;
  plmns = [];
  slices = [];
  len_slice = 0;
  len_plmn = 0;
}

abbrev pub cu : CuCp
cu = record {
  control_info = record {
    mcc = b'9' ∷ b'9' ∷ b'9' ∷ [];
    mnc = b'7' ∷ b'0' ∷ [];
    tac = [];
    ng_gnb_id = [];
    ng_gnb_ip = [];
    ng_gnb_port = pos 9487;
    f1_gnb_id = [];
    f1_gnb_ip = [];
    f1_gnb_port = pos 38472;
  };
  slice_info = record { sst = []; sd = [] };
  ue = none;
  amf = some amf;
  du = none;
  du_pool = [];
  temp_du_conn = some 4;
  id_amf_generator = 1;
  id_rrc_ue_generator = 0;
  ready_signals = 0;
  writes = [];
}
