-- ===== src/Cu/Failure.antt =====
-- `SendF1SetupFailure` of internal/context/du/handlers.go, which nothing calls. The type `Cause` of the
-- F1AP library, its value for Misc and Unspecified, and the encoder of the message are parameters.
use central_unit.Base.{ℕ, Option, none, some}
use central_unit.Bytes.{Bytes}
use central_unit.Wire.{Env}
use central_unit.Du.{GnbDu}
use central_unit.Cu.{CuCp, Status, failed, send_f1ap}

-- The argument `cause`: nil, an `ies.Cause`, or a value of another type.
pub data GivenCause (Cause : Type 0) : Type 0 where
  no_cause other_type : GivenCause Cause
  given : Cause → GivenCause Cause

module _ {Cause : Type 0} (misc_unspecified : Cause) (encode : ℕ → Cause → Option Bytes) where
  send_encoded : Env → CuCp → GnbDu → Option Bytes → CuCp × Status
  send_encoded env cu du none = (cu, failed)
  send_encoded env cu du (some buf) = send_f1ap env cu du buf

  unfoldable pub send_f1_setup_failure : Env → CuCp → GnbDu → ℕ → GivenCause Cause → CuCp × Status
  unfolding send_encoded
  send_f1_setup_failure env cu du transaction no_cause =
      send_encoded env cu du (encode transaction misc_unspecified)
  send_f1_setup_failure env cu du transaction (given c) =
      send_encoded env cu du (encode transaction c)
  send_f1_setup_failure env cu du transaction other_type = (cu, failed)
