-- ===== src/Cu/Safety/Messages.antt =====
-- Any sequence of messages of the DU and the AMF, in any order, keeps the context sound.
use central_unit.Base.{◌≡◌, done}
use central_unit.Bytes.{Bytes}
use central_unit.Wire.{Env}
use central_unit.Cu.{CuCp}
use central_unit.Cu.F1.{dispatch_f1}
use central_unit.Cu.Ngap.{dispatch}
use central_unit.Cu.Safety.{IsSound, Holds-done}
use central_unit.Cu.Safety.F1.{dispatch_f1-IsSound}
use central_unit.Cu.Safety.Ngap.{dispatch-IsSound}

-- One message of either interface, handled to its end with no panic.
pub data Step (env : Env) (cu : CuCp) : CuCp → Type 0 where
  from_du : {cu' : CuCp} (raw : Bytes) → dispatch_f1 env cu raw ≡ done cu' → Step env cu cu'
  from_amf : {cu' : CuCp} (raw : Bytes) → dispatch env cu raw ≡ done cu' → Step env cu cu'

pub data Reach (env : Env) (cu : CuCp) : CuCp → Type 0 where
  here : Reach env cu cu
  next : {cu1 cu2 : CuCp} → Reach env cu cu1 → Step env cu1 cu2 → Reach env cu cu2

Step-IsSound : {env : Env} {cu cu' : CuCp} → IsSound cu → Step env cu cu' → IsSound cu'
Step-IsSound {env} {cu} h (from_du raw e) =
    Holds-done IsSound (dispatch_f1 env cu raw) (dispatch_f1-IsSound env cu h raw) e
Step-IsSound {env} {cu} h (from_amf raw e) =
    Holds-done IsSound (dispatch env cu raw) (dispatch-IsSound env cu h raw) e

-- From a sound context, any messages of the DU and the AMF, in any order and whatever they decode
-- to, lead to a sound context: the UE is never down and keeps the RAN identifier 1, the counters
-- of the AMF equal the lengths of its lists, and the DU is active with exactly one cell.
pub Reach-IsSound : (env : Env) (cu cu' : CuCp) → IsSound cu → Reach env cu cu' → IsSound cu'
Reach-IsSound env cu cu' h here = h
Reach-IsSound env cu cu' h (next r s) = Step-IsSound (Reach-IsSound env cu _ h r) s
