-- ===== src/Cu/Attach/Cell.antt =====
-- The cell of an accepted DU, as `GetCellByID`, `IsActive` and `cellIDsMatch` see it.
use central_unit.Base.{ℕ, ◌≡◌, ◌≢◌, done, refl, inl, inr, true, [], ◌∷◌, none, some, if◌then◌else◌}
use central_unit.Bytes.{Bytes}
use central_unit.Asn1.{cell_ids_match}
use central_unit.Wire.{Env, F1SetupRequest, ServedCellItem}
use central_unit.Du.{GnbDu, get_cell_by_id, is_active}
use central_unit.Cu.{CuCp}
use central_unit.Cu.Attach.Setup.{Stores, handle_f1_setup_request_guard}
use central_unit.Cu.F1.{handle_f1_setup_request, served_cell, accepted_du}

-- The DU is active, and has its cell under exactly the numbers that match the cell identity.
pub Serves : CuCp → ServedCellItem → Bytes → ℕ → GnbDu → Type 0
Serves cu item plmn id du =
    (is_active du ≡ true)
    × (get_cell_by_id du id ≡ (
        if cell_ids_match item.nr_cell_identity id then some (served_cell cu item plmn) else none))

accepted_du-Serves :
    (cu : CuCp) (req : F1SetupRequest) (item : ServedCellItem) (plmn : Bytes) (id : ℕ)
    → Serves cu item plmn id (accepted_du cu req item plmn)
unfolding accepted_du served_cell get_cell_by_id is_active cell_ids_match Serves
accepted_du-Serves cu req item plmn id = (refl, refl)

-- After an F1 Setup Request that changed the context, the stored DU is active, and `GetCellByID`
-- finds the cell of the request under exactly those numbers that `cellIDsMatch` takes for its cell
-- identity; under any other it finds nothing.
pub f1_setup-Serves :
    (env : Env) (cu cu' : CuCp) (req : F1SetupRequest) (id : ℕ)
    → handle_f1_setup_request env cu req ≡ done cu'
    → cu' ≢ cu
    → (item : ServedCellItem) × (plmn : Bytes) × (du : GnbDu) × (req.served_cells ≡ item ∷ [])
      × (cu'.du ≡ some du)
      × Serves cu item plmn id du
f1_setup-Serves env cu cu' req id h changed =
    elim (handle_f1_setup_request_guard env cu cu' req h) [
      | inl same ↦ absurd (changed same)
      | inr (a, stores) ↦ (
        a.item,
        a.plmn,
        accepted_du cu req a.item a.plmn,
        a.one_cell,
        (unfold Stores in stores.0),
        accepted_du-Serves cu req a.item a.plmn id,
      )
    ]
