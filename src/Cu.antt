-- ===== src/Cu.antt =====
-- The CU-CP context of internal/context/context_cucp.go: its state, its getters and identifiers,
-- `createUE` of handle_ue.go, `newAmf` of handle_amf.go, and the two ways out, `SendNgap`
-- (amfcontext.go, over `Send` of internal/transport/sctpclient.go) and `SendF1ap` (ducontext.go).
-- `cu.UE`, `cu.AMF` and `cu.DU` are pointers to objects that nothing else in the model holds, so
-- a change through the pointer is a change of the field. The program keeps one UE, one AMF and
-- one DU. Logging is left out; every call of `SCTPWrite` is recorded in `writes`.
pub mod Rrc
pub mod F1
pub mod Ngap
pub mod Attach
pub mod Failure
pub mod Safety
use central_unit.Base.{
  ℕ, zero, suc, ◌+◌, ◌%◌, ◌^◌, Bool, true, false, List, [], ◌∷◌, ◌++◌, Option, none, some,
  if◌then◌else◌, ◌==◌, Run, done, panic, must, ◌>>=◌,
}
use central_unit.Base.Int.{ℤ}
use central_unit.Bytes.{Bytes}
use central_unit.Bytes.Hex.{decode_string}
use central_unit.Asn1.{BitString, no_bits}
use central_unit.Plmn.{get_mcc_and_mnc_in_octets}
use central_unit.Amf.{GnbAmf, Slice, Plmn, inactive}
use central_unit.Wire.{Env, Location}
use central_unit.Ue.{Ue, initialized}
use central_unit.Du.{GnbDu}

pub record ControlInfo : Type 0 where
  pub mcc : Bytes
  pub mnc : Bytes
  pub tac : Bytes
  pub ng_gnb_id : Bytes
  pub ng_gnb_ip : Bytes
  pub ng_gnb_port : ℤ
  pub f1_gnb_id : Bytes
  pub f1_gnb_ip : Bytes
  pub f1_gnb_port : ℤ

pub data Write : Type 0 where
  to_amf : Bytes → Write
  to_du : (socket : ℕ) → Bytes → Write

pub record CuCp : Type 0 where
  pub control_info : ControlInfo
  pub slice_info : Slice
  pub ue : Option Ue
  pub amf : Option GnbAmf
  pub du : Option GnbDu
  pub du_pool : List (ℕ × GnbDu)
  pub temp_du_conn : Option ℕ
  pub id_amf_generator : ℕ
  pub id_rrc_ue_generator : ℕ
  pub ready_signals : ℕ  -- values sent on `IsReadyNgap`
  pub writes : List Write

-- `nil`, or an error that the caller logs.
pub data Status : Type 0 where
  ok failed : Status

abbrev pub Outcome : Type 0
Outcome = Run (CuCp × Status)

abbrev pub emit : CuCp → Write → CuCp
emit cu w = record cu { writes = cu.writes ++ w ∷ [] }

-- `Send` drops the error of the write.
unfoldable pub send_ngap : CuCp → GnbAmf → Bytes → Run CuCp
send_ngap cu amf pdu = if amf.connected then done (emit cu (to_amf pdu)) else panic

unfoldable pub send_f1ap : Env → CuCp → GnbDu → Bytes → CuCp × Status
send_f1ap env cu du pdu = elim du.conn [
  | none ↦ (cu, failed)
  | some c ↦ (emit cu (to_du c pdu), if env.write_succeeds c pdu then ok else failed)
]

unfoldable pub get_gnb_id_in_bytes : CuCp → Bytes
get_gnb_id_in_bytes cu = (decode_string cu.control_info.ng_gnb_id).0

-- The configured TAC is decoded, and then replaced by a constant.
unfoldable pub get_tac_in_bytes : CuCp → Bytes
get_tac_in_bytes cu = 0x00 ∷ 0x00 ∷ 0x01 ∷ []

-- An SD only where one is configured.
slice_sd : Bytes → Option Bytes
slice_sd [] = none
slice_sd sd = some (decode_string sd).0

unfoldable pub get_slice_in_bytes : CuCp → Bytes × Option Bytes
unfolding slice_sd
get_slice_in_bytes cu = ((decode_string cu.slice_info.sst).0, slice_sd cu.slice_info.sd)

unfoldable pub set_slice_info_from_config : CuCp → Bytes → Bytes → CuCp
set_slice_info_from_config cu sst sd = record cu { slice_info = record { sst = sst; sd = [] } }

unfoldable pub get_octets : CuCp → Run Bytes
get_octets cu = get_mcc_and_mnc_in_octets cu.control_info.mcc cu.control_info.mnc

unfoldable pub get_plmn_identity : Env → CuCp → Bytes
get_plmn_identity env cu = env.plmn_id_to_ngap cu.control_info.mcc cu.control_info.mnc

unfoldable pub get_nr_cell_identity : CuCp → BitString
unfolding get_gnb_id_in_bytes
get_nr_cell_identity cu = record { octets = get_gnb_id_in_bytes cu ++ 0 ∷ 0 ∷ []; num_bits = 36 }

-- The user location that both NAS messages carry.
unfoldable pub location : Env → CuCp → Location
unfolding get_nr_cell_identity get_plmn_identity get_tac_in_bytes
location env cu = record {
  cell = get_nr_cell_identity cu;
  plmn = get_plmn_identity env cu;
  tac = get_tac_in_bytes cu;
}

unfoldable pub get_ran_amf_id : CuCp → CuCp × ℕ
get_ran_amf_id cu =
    (record cu { id_amf_generator = (cu.id_amf_generator + 1) % 2 ^ 64 }, cu.id_amf_generator)

unfoldable pub new_amf : CuCp → Bytes → ℤ → CuCp
unfolding get_ran_amf_id
new_amf cu ip port =
    let (cu', id) = get_ran_amf_id cu in
    record cu' {
      amf = some (record {
        ip = ip;
        port = port;
        amf_id = id;
        connected = false;
        capacity = 0;
        state = inactive;
        name = [];
        region_id = no_bits;
        set_id = no_bits;
        pointer = no_bits;
        plmns = [];
        slices = [];
        len_slice = 0;
        len_plmn = 0;
      });
    }

-- The identifiers of a UE towards the AMF are the constant 1.
unfoldable pub new_ue : ℕ → ℕ → Bytes → ℕ → ℕ → ℕ → Ue
new_ue du_id crnti identity du_ue_id rrc_ue_id amf_id = record {
  ran_ue_ngap_id = 1;
  amf_ue_ngap_id = 1;
  amf_id = amf_id;
  state = initialized;
  rrc_ue_id = rrc_ue_id;
  du_id = du_id;
  du_ue_id = du_ue_id;
  tmsi_part1 = none;
  tmsi = none;
  rnti = crnti;
  random_identity = identity;
  nr_cell_id = none;
  master_cell_group = none;
  establishment_cause = none;
  registration_accept = [];
  mobility_info = record { mcc = []; mnc = [] };
  masked_imeisv = [];
  allowed_snssai = [];
  security_capabilities = none;
}

unfoldable pub create_ue : CuCp → ℕ → ℕ → BitString → ℕ → Run (CuCp × Ue)
unfolding new_ue
create_ue cu du_id crnti identity du_ue_id = must cu.amf >>= λ amf.
    let ue = new_ue du_id crnti identity.octets du_ue_id cu.id_rrc_ue_generator amf.amf_id in
    done
      (record cu { id_rrc_ue_generator = (cu.id_rrc_ue_generator + 1) % 2 ^ 64; ue = some ue }, ue)

-- The cases of the `select` of `IsReadyCheck`.
pub data ReadyCase : Type 0 where
  signalled ticked : ReadyCase

-- `IsReadyCheck`, with the number of goroutines that wait to send on `IsReadyNgap` before and after
-- it; none where the case is not ready. The ticker is always ready in the end.
unfoldable pub is_ready_check : ReadyCase → ℕ → Option (Bool × ℕ)
is_ready_check signalled zero = none
is_ready_check signalled (suc senders) = some (true, senders)
is_ready_check ticked senders = some (false, senders)
