-- ===== src/Examples/Overlap.antt =====
-- Two calls of `AddedPlmn` at once on a list of one element.
use central_unit.Base.{◌≡◌, ◌≢◌, [], ◌∷◌, length}
use central_unit.Amf.{Plmn}
use central_unit.Amf.Race.{Race, Racing, both_entered, finished, overlap_loses}

abbrev announced : Plmn
announced = record { mcc = b'2' ∷ b'0' ∷ b'8' ∷ []; mnc = b'9' ∷ b'3' ∷ [] }

abbrev first : Plmn
first = record { mcc = b'0' ∷ b'0' ∷ b'1' ∷ []; mnc = b'0' ∷ b'1' ∷ [] }

abbrev second : Plmn
second = record { mcc = b'4' ∷ b'5' ∷ b'2' ∷ []; mnc = b'0' ∷ b'4' ∷ [] }

overlap_loses_example :
    ((r : Race) × Racing first second (both_entered (announced ∷ [])) r
      × (r.place_a ≡ finished)
      × (r.place_b ≡ finished)
      × (r.shared.plmns ≡ announced ∷ first ∷ second ∷ [])
      × (r.shared.len_plmn ≡ 3))
    × ((r : Race) × Racing first second (both_entered (announced ∷ [])) r
        × (r.place_a ≡ finished)
        × (r.place_b ≡ finished)
        × (r.shared.plmns ≡ announced ∷ second ∷ [])
        × (r.shared.len_plmn ≡ 3)
        × (r.shared.len_plmn ≢ length r.shared.plmns))
overlap_loses_example = overlap_loses first second (announced ∷ [])
