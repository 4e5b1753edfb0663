-- ===== src/Config/Validate.antt =====
-- Which configurations pass the validation.
use central_unit.Base.{
  ◌≤◌, ◌≡◌, ◌≢◌, ◌↔◌, ◌⊎◌, true, false, Bool, not, ◌&&◌, ◌||◌, ◌==◌, refl, [], ◌∷◌, List, ◌++◌,
  length, All, arith,
}
use central_unit.Base.Int.{ℤ, pos, not_positive, is_nat, IsPositive, not_positive_iff, is_nat_iff}
use central_unit.Bytes.{Bytes, equal}
use central_unit.Bytes.Laws.{equal_iff}
use central_unit.Config.{
  Plmn, SctpConfig, Config, Component, mcc_digits, mnc_length_value, mnc_required, joined, json,
  text, report, report_plmn, PlmnProblem, checks, is_empty, plmn_validate, validate_endpoint,
  validate_sctp, validate,
}

-- An address that is given and a port above 0.
pub record IsEndpoint (addr : Bytes) (number : ℤ) : Type 0 where
  pub address : addr ≢ []
  pub port : IsPositive number

pub record HasStreams (cfg : SctpConfig) : Type 0 where
  pub in_streams : 1 ≤ cfg.in_streams
  pub out_streams : 1 ≤ cfg.out_streams

-- The MNC is only required to be there: its length is not compared with `mnc_length`.
pub record IsPlmn (p : Plmn) : Type 0 where
  pub mcc : length p.mcc ≡ 3
  pub mnc_length : (p.mnc_length ≡ pos 2) ⊎ (p.mnc_length ≡ pos 3)
  pub mnc : p.mnc ≢ []

pub record IsComplete (c : Config) : Type 0 where
  pub node_id : c.cucp.node_id ≢ []
  pub node_name : c.cucp.node_name ≢ []
  pub plmn : IsPlmn c.cucp.plmn
  pub f1ap : IsEndpoint c.f1ap.local_address c.f1ap.local_port
  pub f1ap_sctp : HasStreams c.f1ap.sctp
  pub f1_setup : IsPositive c.f1ap.f1_setup
  pub e1ap : IsEndpoint c.e1ap.local_address c.e1ap.local_port
  pub e1ap_sctp : HasStreams c.e1ap.sctp
  pub amf : IsEndpoint c.ngap.amf_address c.ngap.amf_port
  pub ngap_address : c.ngap.local_address ≢ []
  pub ngap_sctp : HasStreams c.ngap.sctp
  pub level : c.logging.level ≢ []
  pub format : (c.logging.format ≡ json) ⊎ (c.logging.format ≡ text)

append-eq-nil {ℓ} : {A : Type ℓ} (xs ys : List A) → (xs ++ ys ≡ []) ↔ ((xs ≡ []) × (ys ≡ []))
append-eq-nil [] ys = ground arith
append-eq-nil (x ∷ xs) ys = ground arith

joined-eq-nil {ℓ} :
    {A : Type ℓ} (checks : List (List A)) → (joined checks ≡ []) ↔ All (λ found. found ≡ []) checks
joined-eq-nil [] = (λ e. tt, λ h. refl)
joined-eq-nil (found ∷ rest) = ground (arith, append-eq-nil found (joined rest), joined-eq-nil rest)

report_iff {ℓ} : {A : Type ℓ} (b : Bool) (problem : A) → (report b problem ≡ []) ↔ (b ≡ false)
report_iff true problem = ground arith
report_iff false problem = ground arith

given_iff : (s : Bytes) → (is_empty s ≡ false) ↔ (s ≢ [])
unfolding equal
given_iff [] = ground arith
given_iff (x ∷ s) = ground arith

plmn_validate_iff : (p : Plmn) → (plmn_validate p ≡ []) ↔ IsPlmn p
unfolding plmn_validate
plmn_validate_iff p = ground (
  arith,
  joined-eq-nil (
      report (not (length p.mcc == 3)) mcc_digits
      ∷ report (not (is_nat (λ n. n == 2) p.mnc_length) && not (is_nat (λ n. n == 3) p.mnc_length))
          mnc_length_value
      ∷ report (is_empty p.mnc) mnc_required
      ∷ []),
  is_nat_iff 2 p.mnc_length,
  is_nat_iff 3 p.mnc_length,
  given_iff p.mnc,
)

endpoint_iff :
    (addr : Bytes) (port : ℤ)
    → ((is_empty addr || not_positive port) ≡ false) ↔ IsEndpoint addr port
endpoint_iff addr port = ground (arith, given_iff addr, not_positive_iff port)

validate_endpoint_iff :
    (name : Component) (addr : Bytes) (port : ℤ)
    → (validate_endpoint name addr port ≡ []) ↔ IsEndpoint addr port
unfolding validate_endpoint
validate_endpoint_iff name addr port = ground (arith, endpoint_iff addr port)

validate_sctp_iff :
    (name : Component) (cfg : SctpConfig) → (validate_sctp name cfg ≡ []) ↔ HasStreams cfg
unfolding validate_sctp
validate_sctp_iff name cfg = ground arith

report_plmn_iff : (ps : List PlmnProblem) → (report_plmn ps ≡ []) ↔ (ps ≡ [])
report_plmn_iff [] = ground arith
report_plmn_iff (p ∷ ps) = ground arith

format_iff :
    (format : Bytes)
    → ((not (equal format json) && not (equal format text)) ≡ false)
      ↔ ((format ≡ json) ⊎ (format ≡ text))
format_iff format = ground (arith, equal_iff format json, equal_iff format text)

-- The check finds no problem exactly where the configuration is complete: the node has an identifier
-- and a name, the MCC three bytes, the MNC one at least and the field of its length 2 or 3; each
-- address that is tested is given, each port that is tested and the setup timer are positive, no
-- number of streams is zero, a log level is given and the log format is json or text.
pub validate_iff : (c : Config) → (validate c ≡ []) ↔ IsComplete c
unfolding validate
validate_iff c = (
  λ e.
      let (
        node_id,
        (
          node_name,
          (
            plmn,
            (
              f1,
              (
                f1_sctp,
                (f1_setup, (e1, (e1_sctp, (amf, (address, (ng_sctp, (level, (format, _)))))))),
              ),
            ),
          ),
        ),
      ) =
        (joined-eq-nil (checks c)).0 e in
      record {
        node_id = (given_iff c.cucp.node_id).0 ((report_iff _ _).0 node_id);
        node_name = (given_iff c.cucp.node_name).0 ((report_iff _ _).0 node_name);
        plmn = (plmn_validate_iff c.cucp.plmn).0 ((report_plmn_iff _).0 plmn);
        f1ap = (validate_endpoint_iff _ _ _).0 f1;
        f1ap_sctp = (validate_sctp_iff _ _).0 f1_sctp;
        f1_setup = (not_positive_iff c.f1ap.f1_setup).0 ((report_iff _ _).0 f1_setup);
        e1ap = (validate_endpoint_iff _ _ _).0 e1;
        e1ap_sctp = (validate_sctp_iff _ _).0 e1_sctp;
        amf = (endpoint_iff _ _).0 ((report_iff _ _).0 amf);
        ngap_address = (given_iff c.ngap.local_address).0 ((report_iff _ _).0 address);
        ngap_sctp = (validate_sctp_iff _ _).0 ng_sctp;
        level = (given_iff c.logging.level).0 ((report_iff _ _).0 level);
        format = (format_iff c.logging.format).0 ((report_iff _ _).0 format);
      },
  λ h. (joined-eq-nil (checks c)).1 (
    (report_iff _ _).1 ((given_iff c.cucp.node_id).1 h.node_id),
    (
      (report_iff _ _).1 ((given_iff c.cucp.node_name).1 h.node_name),
      (
        (report_plmn_iff _).1 ((plmn_validate_iff c.cucp.plmn).1 h.plmn),
        (
          (validate_endpoint_iff _ _ _).1 h.f1ap,
          (
            (validate_sctp_iff _ _).1 h.f1ap_sctp,
            (
              (report_iff _ _).1 ((not_positive_iff c.f1ap.f1_setup).1 h.f1_setup),
              (
                (validate_endpoint_iff _ _ _).1 h.e1ap,
                (
                  (validate_sctp_iff _ _).1 h.e1ap_sctp,
                  (
                    (report_iff _ _).1 ((endpoint_iff c.ngap.amf_address c.ngap.amf_port).1 h.amf),
                    (
                      (report_iff _ _).1 ((given_iff c.ngap.local_address).1 h.ngap_address),
                      (
                        (validate_sctp_iff _ _).1 h.ngap_sctp,
                        (
                          (report_iff _ _).1 ((given_iff c.logging.level).1 h.level),
                          ((report_iff _ _).1 ((format_iff c.logging.format).1 h.format), tt),
                        ),
                      ),
                    ),
                  ),
                ),
              ),
            ),
          ),
        ),
      ),
    ),
  ),
)
