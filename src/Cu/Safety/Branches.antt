-- ===== src/Cu/Safety/Branches.antt =====
-- What a branch of a handler may do: log an error, leave a context as it is, test, read the UE.
use central_unit.Base.{Bool, true, false, Option, none, some, Run, must, if◌then◌else◌}
use central_unit.Ue.{Ue}
use central_unit.Cu.{CuCp, Outcome}
use central_unit.Cu.F1.{logged, or_unchanged}
use central_unit.Cu.Safety.{IsSound, UeOk, Holds, Holds-seq}
use central_unit.Cu.Safety.Rrc.{SoundPair}

pub logged-IsSound : (m : Outcome) → Holds SoundPair m → Holds IsSound (logged m)
logged-IsSound m h = Holds-seq SoundPair IsSound m _ h λ r k. k

pub or_unchanged-IsSound :
    {A : Type 0} (cu : CuCp) (o : Option A) (k : A → Run CuCp)
    → IsSound cu
    → ((a : A) → Holds IsSound (k a))
    → Holds IsSound (or_unchanged cu o k)
or_unchanged-IsSound cu none k h f = h
or_unchanged-IsSound cu (some a) k h f = f a

pub if-IsSound :
    (b : Bool) (x y : Run CuCp)
    → Holds IsSound x
    → Holds IsSound y
    → Holds IsSound (if b then x else y)
if-IsSound true x y hx hy = hx
if-IsSound false x y hx hy = hy

pub ue-UeOk : (o : Option Ue) → UeOk o → Holds (λ ue. UeOk (some ue)) (must o)
ue-UeOk none k = tt
ue-UeOk (some ue) k = k
