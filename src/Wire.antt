-- ===== src/Wire.antt =====
-- What crosses the CU-CP's interfaces: of the messages of the F1AP, NGAP and RRC libraries the
-- fields that the source reads or fills, and those libraries' functions as a parameter, `Env`.
use central_unit.Base.{ℕ, Bool, List, Option}
use central_unit.Bytes.{Bytes}
use central_unit.Asn1.{BitString, FiveGsTmsi}
use central_unit.Amf.{NgSetupResponse}

-- F1AP, from the DU.

pub record SystemInformation : Type 0 where
  pub mib : Bytes
  pub sib1 : Bytes

pub record ServedCellItem : Type 0 where
  pub nr_cell_identity : BitString
  pub nr_pci : ℕ
  pub timing_configuration : Bytes
  pub served_plmns : List Bytes
  pub five_gs_tac : Bytes
  pub system_information : Option SystemInformation

pub record F1SetupRequest : Type 0 where
  pub transaction_id : ℕ
  pub gnb_du_id : ℕ
  pub gnb_du_name : Bytes
  pub served_cells : List ServedCellItem
  pub rrc_version : Bytes

pub record InitialUlRrc : Type 0 where
  pub gnb_du_ue_id : ℕ
  pub c_rnti : ℕ
  pub nr_cell_identity : BitString
  pub rrc_container : Bytes
  pub du_to_cu_container : Option Bytes

-- `SRBID` is an int64, here its bit pattern.
pub record UlRrc : Type 0 where
  pub gnb_cu_ue_id : ℕ
  pub gnb_du_ue_id : ℕ
  pub srb_id : ℕ
  pub rrc_container : Bytes

-- The dynamic type of `pdu.Message.Msg`.
pub data F1Message : Type 0 where
  f1_setup_request : F1SetupRequest → F1Message
  initial_ul_rrc : InitialUlRrc → F1Message
  ul_rrc : UlRrc → F1Message
  ue_context_setup_response : F1Message
  other_f1_message : F1Message

pub record F1Pdu : Type 0 where
  pub present : ℕ
  pub procedure_code : ℕ
  pub msg : F1Message

-- RRC, from the UE. A nil pointer is `none`.

pub data InitialUeIdentity : Type 0 where
  random_value : InitialUeIdentity
  s_tmsi_part1 : BitString → InitialUeIdentity
  other_identity : InitialUeIdentity

pub record RrcSetupRequest : Type 0 where
  pub ue_identity : InitialUeIdentity
  pub establishment_cause : ℕ

-- The choice of the message, and in it `RrcSetupRequest`.
pub record UlCcch : Type 0 where
  pub c1 : Option (Option RrcSetupRequest)

pub data TmsiValue : Type 0 where
  part2 : BitString → TmsiValue
  full : Option Bytes → TmsiValue
  other_value : TmsiValue

pub record SetupCompleteIes : Type 0 where
  pub tmsi_value : Option TmsiValue
  pub dedicated_nas : Bytes

-- The pointers of each message: the message itself, its critical extensions, the NAS message.
pub data UlDcchC1 : Type 0 where
  rrc_setup_complete : Option (Option SetupCompleteIes) → UlDcchC1
  ul_information_transfer : Option (Option Bytes) → UlDcchC1
  security_mode_complete : Option (Unit {0}) → UlDcchC1
  rrc_reconfiguration_complete : Option (Unit {0}) → UlDcchC1
  other_c1 : UlDcchC1

pub record UlDcch : Type 0 where
  pub choice : ℕ
  pub c1 : Option UlDcchC1

-- NGAP, from the AMF.

pub record SliceItem : Type 0 where
  pub sst : Option Bytes
  pub sd : Option Bytes

pub record DownlinkNas : Type 0 where
  pub amf_ue_ngap_id : ℕ
  pub nas_pdu : Bytes

pub record ContextSetup : Type 0 where
  pub allowed_nssai : List SliceItem
  pub serving_plmn : Option Bytes
  pub masked_imeisv : Option Bytes
  pub security_capabilities : ℕ
  pub nas_pdu : Bytes

pub data NgMessage : Type 0 where
  downlink_nas : DownlinkNas → NgMessage
  context_setup : ContextSetup → NgMessage
  ng_setup_response : NgSetupResponse → NgMessage
  other_ng_message : NgMessage

pub record NgPdu : Type 0 where
  pub present : ℕ
  pub procedure_code : ℕ
  pub msg : NgMessage

-- Built by the CU-CP. `CellGroupConfig` is only passed from the decoder to the encoder: a number
-- stands for each of its values.
abbrev pub CellGroupConfig : Type 0
CellGroupConfig = ℕ

pub data RrcOut : Type 0 where
  rrc_setup : (srb : ℕ) → (master_cell_group : Bytes) → RrcOut
  dl_information_transfer : (nas : Bytes) → RrcOut
  rrc_reconfiguration : (srb drb : ℕ) → (master_cell_group : Bytes) → (nas : Bytes) → RrcOut
  cell_group : Option CellGroupConfig → RrcOut

pub record DlRrc : Type 0 where
  pub gnb_cu_ue_id : ℕ
  pub gnb_du_ue_id : ℕ
  pub srb_id : ℕ
  pub rrc_container : Bytes

pub record UeContextSetup : Type 0 where
  pub gnb_cu_ue_id : ℕ
  pub gnb_du_ue_id : ℕ
  pub plmn : Bytes
  pub cell : BitString
  pub srb : ℕ
  pub drb : ℕ

pub data F1Out : Type 0 where
  f1_setup_response :
      (transaction_id : ℕ)
      → (rrc_version : Bytes) → (plmn : Bytes) → (cell : BitString) → (pci : ℕ) → F1Out
  dl_rrc_transfer : DlRrc → F1Out
  ue_context_setup_request : UeContextSetup → F1Out

pub record Location : Type 0 where
  pub cell : BitString
  pub plmn : Bytes
  pub tac : Bytes

pub data NgOut : Type 0 where
  ng_setup_request : (plmn gnb_id tac : Bytes) → (sst : Bytes) → (sd : Option Bytes) → NgOut
  initial_ue_message :
      (ran_ue_ngap_id : ℕ) → (nas : Bytes) → Location → (tmsi : Option FiveGsTmsi) → NgOut
  uplink_nas_transport : (amf_ue_ngap_id ran_ue_ngap_id : ℕ) → (nas : Bytes) → Location → NgOut
  initial_context_setup_response : (amf_ue_ngap_id ran_ue_ngap_id : ℕ) → NgOut

-- The libraries: decoders and encoders that may fail, the constants of the two `switch`
-- statements, the PLMN encoder of the NGAP library, and whether a write to a DU's socket succeeds.
pub record Env : Type 0 where
  pub f1_decode : Bytes → Option F1Pdu
  pub f1_encode : F1Out → Option Bytes
  -- the PDU that `NgapDecode` returns, beside its error or without one
  pub ng_decode : Bytes → Option NgPdu
  pub ng_encode : NgOut → Option Bytes
  pub rrc_encode : RrcOut → Option Bytes
  pub decode_ul_ccch : Bytes → Option UlCcch
  pub decode_ul_dcch : Bytes → Option UlDcch
  pub decode_cell_group : Bytes → Option CellGroupConfig
  pub plmn_id_to_ngap : Bytes → Bytes → Bytes
  pub write_succeeds : ℕ → Bytes → Bool
  pub f1_initiating : ℕ
  pub f1_successful : ℕ
  pub f1_unsuccessful : ℕ
  pub f1_setup : ℕ
  pub f1_initial_ul_rrc : ℕ
  pub f1_ul_rrc : ℕ
  pub f1_ue_context_setup : ℕ
  pub ng_initiating : ℕ
  pub ng_successful : ℕ
  pub ng_downlink_nas : ℕ
  pub ng_initial_context_setup : ℕ
  pub ng_setup : ℕ
