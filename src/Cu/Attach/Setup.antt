-- ===== src/Cu/Attach/Setup.antt =====
-- F1 Setup: the requests that change the context.
use central_unit.Base.{
  ℕ, ◌≡◌, ◌≢◌, ◌⊎◌, refl, List, [], ◌∷◌, length, some, done, panic, arith, Run-cases, Bool-cases,
  inl, inr,
}
use central_unit.Bytes.{Bytes}
use central_unit.Plmn.{plmn_matches}
use central_unit.Plmn.RoundTrip.{plmn_matches_iff}
use central_unit.Wire.{Env, F1SetupRequest, ServedCellItem, f1_setup_request}
use central_unit.Cu.{CuCp, get_octets, send_f1ap}
use central_unit.Cu.F1.{
  accepted_du, accept_du, check_plmn, check_cells, handle_f1_setup_request, dispatch_initiating,
  dispatch_pdu, dispatch_f1,
}

-- The request has one cell, whose first PLMN is the CU's own, of three octets.
pub record Accepts (cu : CuCp) (req : F1SetupRequest) : Type 0 where
  pub item : ServedCellItem
  pub plmn : Bytes
  pub others : List Bytes
  pub one_cell : req.served_cells ≡ item ∷ []
  pub first_plmn : item.served_plmns ≡ plmn ∷ others
  pub own_plmn : get_octets cu ≡ done plmn
  pub three_octets : length plmn ≡ 3

-- What an accepted request leaves: its DU is stored, the UE is untouched.
unfoldable pub Stores : CuCp → CuCp → F1SetupRequest → ServedCellItem → Bytes → Type 0
Stores cu cu' req item plmn = (cu'.du ≡ some (accepted_du cu req item plmn)) × (cu'.ue ≡ cu.ue)

accept_du-du :
    (env : Env) (cu : CuCp) (req : F1SetupRequest) (item : ServedCellItem) (plmn : Bytes)
    → Stores cu (accept_du env cu req item plmn) req item plmn
unfolding accept_du send_f1ap Stores
accept_du-du env cu req item plmn = ground arith

check_plmn_guard :
    (env : Env) (cu cu' : CuCp) (req : F1SetupRequest) (item : ServedCellItem) (ps : List Bytes)
    → check_plmn env cu req item ps ≡ done cu'
    → (cu' ≡ cu)
      ⊎ ((plmn : Bytes) × (others : List Bytes) × (ps ≡ plmn ∷ others)
          × (get_octets cu ≡ done plmn)
          × (length plmn ≡ 3)
          × Stores cu cu' req item plmn)
unfolding check_plmn
check_plmn_guard env cu cu' req item [] k = inl (ground arith)
check_plmn_guard env cu cu' req item (p ∷ ps) k = elim (Run-cases (get_octets cu)) [
  | inl e ↦ inl (ground (arith, e))
  | inr (own, e) ↦ own_read own e
]
  where
    own_read :
        (own : Bytes)
        → get_octets cu ≡ done own
        → (cu' ≡ cu)
          ⊎ ((plmn : Bytes) × (others : List Bytes) × (p ∷ ps ≡ plmn ∷ others)
              × (get_octets cu ≡ done plmn)
              × (length plmn ≡ 3)
              × Stores cu cu' req item plmn)
    own_read own e = elim (Bool-cases (plmn_matches p own)) [
      | inl t ↦
          let same = (plmn_matches_iff p own).0 t in
          let stored : cu' ≡ accept_du env cu req item p = ground (arith, e, t) in
          inr (
            p,
            ps,
            refl,
            ground (arith, same, e),
            same.1,
            rw stored (accept_du-du env cu req item p),
          )
      | inr f ↦ inl (ground (arith, e, f))
    ]

-- A DU is stored only for a request with exactly one cell, whose first PLMN is the three octets of
-- the CU's own; every other request that is handled leaves the context as it was, with no F1 Setup
-- Failure and no other message written. The stored DU is active, on the socket of the newest
-- connection, with the one cell of the request, and the UE is untouched.
pub handle_f1_setup_request_guard :
    (env : Env) (cu cu' : CuCp) (req : F1SetupRequest)
    → handle_f1_setup_request env cu req ≡ done cu'
    → (cu' ≡ cu) ⊎ ((a : Accepts cu req) × Stores cu cu' req a.item a.plmn)
unfolding handle_f1_setup_request check_cells
handle_f1_setup_request_guard env cu cu' req h = cells req.served_cells refl h
  where
    one :
        (item : ServedCellItem)
        → req.served_cells ≡ item ∷ []
        → ((cu' ≡ cu)
            ⊎ ((plmn : Bytes) × (others : List Bytes) × (item.served_plmns ≡ plmn ∷ others)
                × (get_octets cu ≡ done plmn)
                × (length plmn ≡ 3)
                × Stores cu cu' req item plmn))
        → (cu' ≡ cu) ⊎ ((a : Accepts cu req) × Stores cu cu' req a.item a.plmn)
    one item e (inl same) = inl same
    one item e (inr (plmn, others, first, own, len, stores)) = inr (
      record {
        item = item;
        plmn = plmn;
        others = others;
        one_cell = e;
        first_plmn = first;
        own_plmn = own;
        three_octets = len;
      },
      stores,
    )

    cells :
        (items : List ServedCellItem)
        → req.served_cells ≡ items
        → check_cells env cu req items ≡ done cu'
        → (cu' ≡ cu) ⊎ ((a : Accepts cu req) × Stores cu cu' req a.item a.plmn)
    cells [] e k = ground arith
    cells (item ∷ second ∷ more) e k = inl (ground arith)
    cells (item ∷ []) e k =
        one item e (check_plmn_guard env cu cu' req item item.served_plmns (ground arith))

-- An F1AP message that decodes to an F1 Setup Request with no cell, among the initiating messages
-- of procedure codes that are not 0, makes `dispatchF1` panic in every context.
pub f1_setup_no_cells_panics :
    (env : Env) (cu : CuCp) (raw : Bytes) (byte : ℕ) (req : F1SetupRequest)
    → env.f1_setup ≢ 0
    → env.f1_initiating ≢ 0
    → env.f1_decode (byte ∷ raw)
      ≡ some (record {
        present = env.f1_initiating;
        procedure_code = env.f1_setup;
        msg = f1_setup_request req;
      })
    → req.served_cells ≡ []
    → dispatch_f1 env cu (byte ∷ raw) ≡ panic
unfolding dispatch_f1 dispatch_pdu dispatch_initiating handle_f1_setup_request
f1_setup_no_cells_panics env cu raw byte req n m d e = ground arith
