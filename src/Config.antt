-- ===== src/Config.antt =====
-- The configuration of pkg/config/config.go. A string is the list of its bytes, an `int` and a
-- `time.Duration` are integers. A message of the validation is a constructor of `Problem`, whose
-- arguments are what the text is formatted with; an error is the list of the messages that it joins.
-- The file system and the YAML decoder are parameters.
pub mod Validate
pub mod Load
use central_unit.Base.{
  ℕ, Bool, true, false, not, ◌&&◌, ◌||◌, List, [], ◌∷◌, ◌++◌, length, ◌==◌, Option, none, some,
  if◌then◌else◌,
}
use central_unit.Base.Int.{ℤ, pos, not_positive, is_nat}
use central_unit.Bytes.{Bytes, equal}

pub record Plmn : Type 0 where
  pub mcc : Bytes
  pub mnc : Bytes
  pub mnc_length : ℤ

pub record Slice : Type 0 where
  pub sst : Bytes
  pub sd : Bytes

pub record CucpConfig : Type 0 where
  pub node_id : Bytes
  pub node_name : Bytes
  pub plmn : Plmn
  pub slices : List Slice
  pub tac : Bytes

pub record SctpConfig : Type 0 where
  pub in_streams : ℕ
  pub out_streams : ℕ

pub record F1apConfig : Type 0 where
  pub local_address : Bytes
  pub local_port : ℤ
  pub sctp : SctpConfig
  pub f1_setup : ℤ

pub record E1apConfig : Type 0 where
  pub local_address : Bytes
  pub local_port : ℤ
  pub sctp : SctpConfig

pub record NgapConfig : Type 0 where
  pub gnb_id : Bytes
  pub amf_address : Bytes
  pub amf_port : ℤ
  pub local_address : Bytes
  pub local_port : ℤ
  pub sctp : SctpConfig

pub record LoggingConfig : Type 0 where
  pub level : Bytes
  pub format : Bytes

pub record FeatureFlags : Type 0 where
  pub split_architecture : Bool
  pub connected_inactive_state : Bool

pub record Config : Type 0 where
  pub cucp : CucpConfig
  pub f1ap : F1apConfig
  pub e1ap : E1apConfig
  pub ngap : NgapConfig
  pub logging : LoggingConfig
  pub features : FeatureFlags
  pub ue_store_shards : ℤ

pub data PlmnProblem : Type 0 where
  mcc_digits mnc_length_value mnc_required : PlmnProblem

pub data Component : Type 0 where
  f1ap e1ap ngap : Component

pub data Problem : Type 0 where
  node_id_zero node_name_required : Problem
  plmn_problems : List PlmnProblem → Problem
  endpoint_unset streams_zero : Component → Problem
  f1_setup_timer : Problem
  amf_endpoint_required ngap_local_address_required : Problem
  level_required format_unknown : Problem

abbrev pub info : Bytes
info = b'i' ∷ b'n' ∷ b'f' ∷ b'o' ∷ []

abbrev pub json : Bytes
json = b'j' ∷ b's' ∷ b'o' ∷ b'n' ∷ []

abbrev pub text : Bytes
text = b't' ∷ b'e' ∷ b'x' ∷ b't' ∷ []

abbrev pub report {ℓ} : {A : Type ℓ} → Bool → A → List A
report true problem = problem ∷ []
report false problem = []

-- `append(problems, …)`, check by check.
abbrev pub joined {ℓ} : {A : Type ℓ} → List (List A) → List A
joined [] = []
joined (found ∷ rest) = found ++ joined rest

-- `s == ""`
abbrev pub is_empty : Bytes → Bool
is_empty s = equal s []

unfoldable pub plmn_validate : Plmn → List PlmnProblem
plmn_validate p = joined (
    report (not (length p.mcc == 3)) mcc_digits
    ∷ report (not (is_nat (λ n. n == 2) p.mnc_length) && not (is_nat (λ n. n == 3) p.mnc_length))
        mnc_length_value
    ∷ report (is_empty p.mnc) mnc_required
    ∷ [])

-- An error is reported by the caller.
abbrev pub report_plmn : List PlmnProblem → List Problem
report_plmn [] = []
report_plmn (p ∷ ps) = plmn_problems (p ∷ ps) ∷ []

unfoldable pub validate_endpoint : Component → Bytes → ℤ → List Problem
validate_endpoint name addr port = report (is_empty addr || not_positive port) (endpoint_unset name)

unfoldable pub validate_sctp : Component → SctpConfig → List Problem
validate_sctp name cfg = report (cfg.in_streams == 0 || cfg.out_streams == 0) (streams_zero name)

-- What each check finds, in the order of the source.
abbrev pub checks : Config → List (List Problem)
checks c =
    report (is_empty c.cucp.node_id) node_id_zero
    ∷ report (is_empty c.cucp.node_name) node_name_required
    ∷ report_plmn (plmn_validate c.cucp.plmn)
    ∷ validate_endpoint f1ap c.f1ap.local_address c.f1ap.local_port
    ∷ validate_sctp f1ap c.f1ap.sctp
    ∷ report (not_positive c.f1ap.f1_setup) f1_setup_timer
    ∷ validate_endpoint e1ap c.e1ap.local_address c.e1ap.local_port
    ∷ validate_sctp e1ap c.e1ap.sctp
    ∷ report (is_empty c.ngap.amf_address || not_positive c.ngap.amf_port) amf_endpoint_required
    ∷ report (is_empty c.ngap.local_address) ngap_local_address_required
    ∷ validate_sctp ngap c.ngap.sctp
    ∷ report (is_empty c.logging.level) level_required
    ∷ report (not (equal c.logging.format json) && not (equal c.logging.format text)) format_unknown
    ∷ []

-- The error is nil if there is no problem.
unfoldable pub validate : Config → List Problem
unfolding plmn_validate validate_endpoint validate_sctp
validate c = joined (checks c)

abbrev pub or_default : Bytes → Bytes → Bytes
or_default s d = if is_empty s then d else s

unfoldable pub apply_defaults : Config → Config
apply_defaults c = record c {
  logging = record {
    level = or_default c.logging.level info;
    format = or_default c.logging.format json;
  };
  ue_store_shards = if not_positive c.ue_store_shards then pos 64 else c.ue_store_shards;
}

-- The file and what the strict decoder makes of it; an error of either is `none`.
pub record Disk : Type 0 where
  pub read_file : Bytes → Option Bytes
  pub decode : Bytes → Option Config

unfoldable pub load : Disk → Bytes → Option Config
unfolding apply_defaults
load disk path = elim (disk.read_file path) [
  | none ↦ none
  | some raw ↦ elim (disk.decode raw) [ none ↦ none | some cfg ↦ some (apply_defaults cfg) ]
]

-- `New` of internal/app/app.go up to its configuration.
unfoldable pub new_app : Disk → Bytes → Option Config
unfolding load validate
new_app disk path = elim (load disk path) [
  | none ↦ none
  | some cfg ↦ elim (validate cfg) [ [] ↦ some cfg | _ ∷ _ ↦ none ]
]
