-- ===== src/Ue.antt =====
-- The UE context of internal/context/uecontext/uecontext.go.
use central_unit.Base.{ℕ, List, [], ◌∷◌, Option, some, if◌then◌else◌, Run, done, ◌>>=◌}
use central_unit.Bytes.{Bytes, equal}
use central_unit.Asn1.{BitString, FiveGsTmsi}
use central_unit.Plmn.{convert_mcc_mnc}
use central_unit.Amf.{Plmn, Slice}
use central_unit.Wire.{CellGroupConfig}

pub data UeState : Type 0 where
  initialized ongoing ready down : UeState

pub record Ue : Type 0 where
  pub ran_ue_ngap_id : ℕ
  pub amf_ue_ngap_id : ℕ
  pub amf_id : ℕ
  pub state : UeState
  pub rrc_ue_id : ℕ
  pub du_id : ℕ
  pub du_ue_id : ℕ
  pub tmsi_part1 : Option BitString
  pub tmsi : Option FiveGsTmsi
  pub rnti : ℕ
  pub random_identity : Bytes
  pub nr_cell_id : Option BitString
  pub master_cell_group : Option CellGroupConfig
  pub establishment_cause : Option ℕ
  pub registration_accept : Bytes
  pub mobility_info : Plmn
  pub masked_imeisv : Bytes
  pub allowed_snssai : List Slice
  pub security_capabilities : Option ℕ

-- "not informed"
abbrev pub not_informed : Bytes
not_informed =
    b'n' ∷ b'o' ∷ b't' ∷ b' ' ∷ b'i' ∷ b'n' ∷ b'f' ∷ b'o' ∷ b'r' ∷ b'm' ∷ b'e' ∷ b'd' ∷ []

mobility_of : Bytes → Run Plmn
unfolding equal
mobility_of plmn =
    if equal plmn not_informed
    then done (record { mcc = plmn; mnc = plmn })
    else convert_mcc_mnc plmn >>= λ p. done (record { mcc = p.0; mnc = p.1 })

unfoldable pub create_ue_context : Ue → Bytes → Bytes → List Slice → ℕ → Run Ue
unfolding mobility_of
create_ue_context ue plmn imeisv allowed capabilities = mobility_of plmn >>= λ m. done (record ue {
  mobility_info = m;
  masked_imeisv = imeisv;
  allowed_snssai = allowed;
  security_capabilities = some capabilities;
})
