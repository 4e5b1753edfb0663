-- ===== src/Du.antt =====
-- The DU context of internal/context/du/ducontext.go. The socket of a DU is a number.
use central_unit.Base.{ℕ, Bool, true, false, List, [], ◌∷◌, Option, none, some, ◌==◌, if◌then◌else◌}
use central_unit.Bytes.{Bytes}
use central_unit.Amf.{Plmn}
use central_unit.Wire.{F1SetupRequest}

pub data DuState : Type 0 where
  du_inactive du_active du_lost : DuState

pub record ServedCell : Type 0 where
  pub cell_id : ℕ
  pub global_cell_id : Bytes
  pub plmn : Plmn
  pub pci : ℕ
  pub bandwidth_mhz : ℕ
  pub tac : Bytes

pub record GnbDu : Type 0 where
  pub du_id : ℕ
  pub du_name : Bytes
  pub state : DuState
  pub conn : Option ℕ
  pub setup_req : F1SetupRequest
  pub mib : Bytes
  pub sib1 : Bytes
  pub mtc : Bytes
  pub served_cells : List ServedCell

unfoldable pub find_cell : List ServedCell → ℕ → Option ServedCell
find_cell [] id = none
find_cell (c ∷ cs) id = if c.cell_id == id then some c else find_cell cs id

unfoldable pub get_cell_by_id : GnbDu → ℕ → Option ServedCell
unfolding find_cell
get_cell_by_id du id = find_cell du.served_cells id

abbrev is_du_active : DuState → Bool
is_du_active du_active = true
is_du_active _ = false

unfoldable pub is_active : GnbDu → Bool
is_active du = is_du_active du.state
