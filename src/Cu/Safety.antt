-- ===== src/Cu/Safety.antt =====
-- What every message leaves true of the CU-CP context, whichever branch it takes.
pub mod Rrc
pub mod Branches
pub mod F1
pub mod Ngap
pub mod Messages
use central_unit.Base.{
  ℕ, ◌+◌, ◌≤◌, ◌≡◌, ◌≢◌, Bool, List, [], ◌∷◌, ◌++◌, length, take, Option, none, some, Run, done,
  panic, arith, ◌>>=◌, Run-cases, inl, inr, refl,
}
use central_unit.Ue.{Ue, down}
use central_unit.Du.{GnbDu, du_active}
use central_unit.Amf.{GnbAmf}
use central_unit.Amf.Support.{IsLinked}
use central_unit.Cu.{CuCp, Outcome, Write}

abbrev pub UeOk : Option Ue → Type 0
UeOk none = Unit
UeOk (some ue) = (ue.state ≢ down) × (ue.ran_ue_ngap_id ≡ 1)

abbrev pub AmfOk : Option GnbAmf → Type 0
AmfOk none = Unit
AmfOk (some amf) = IsLinked amf

abbrev pub DuOk : Option GnbDu → Type 0
DuOk none = Unit
DuOk (some du) = (du.state ≡ du_active) × (length du.served_cells ≡ 1)

-- The UE is never down and has the RAN identifier 1, the counters of the AMF are right, and a DU
-- is active and serves one cell.
pub record IsSound (cu : CuCp) : Type 0 where
  pub ue_ok : UeOk cu.ue
  pub amf_ok : AmfOk cu.amf
  pub du_ok : DuOk cu.du

-- `Holds P m`: if m does not panic, its result satisfies P.
abbrev pub Holds {ℓ} : {A : Type ℓ} → (A → Type 0) → Run A → Type 0
Holds P (done a) = P a
Holds P panic = Unit

pub Holds-seq {ℓ κ} :
    {A : Type ℓ} {B : Type κ} (P : A → Type 0) (Q : B → Type 0) (m : Run A) (k : A → Run B)
    → Holds P m
    → ((a : A) → P a → Holds Q (k a))
    → Holds Q (m >>= k)
Holds-seq P Q (done a) k h f = f a h
Holds-seq P Q panic k h f = tt

pub Holds-bind {ℓ κ} :
    {A : Type ℓ} {B : Type κ} (Q : B → Type 0) (m : Run A) (k : A → Run B)
    → ((a : A) → Holds Q (k a))
    → Holds Q (m >>= k)
Holds-bind Q (done a) k f = f a
Holds-bind Q panic k f = tt

pub Holds-done {ℓ} :
    {A : Type ℓ} (P : A → Type 0) (m : Run A) {a : A} → Holds P m → m ≡ done a → P a
Holds-done P m h e = rw e at h
