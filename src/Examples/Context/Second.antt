-- ===== src/Examples/Context/Second.antt =====
-- A second UE.
use central_unit.Base.{◌≡◌, refl, some, done, panic, Run, arith}
use central_unit.Wire.{InitialUlRrc}
use central_unit.Cu.{CuCp, new_ue, create_ue, send_f1ap}
use central_unit.Cu.Rrc.{
  identity_bits, with_part1, send_rrc_setup, accept_setup, handle_rrc_setup_request,
}
use central_unit.Cu.F1.{handle_initial_ul_rrc, handle_ul_rrc}
use central_unit.Cu.Attach.Single.{ue_number, setup_displaces}
use central_unit.Examples.Context.{env, request, complete}
use central_unit.Examples.Context.Attachment.{with_ue}

abbrev request_six : InitialUlRrc
request_six = record request { gnb_du_ue_id = 6 }

abbrev done_or : Run CuCp → CuCp → CuCp
done_or (done c) d = c
done_or panic d = d

abbrev displaced : CuCp
displaced = done_or (handle_initial_ul_rrc env with_ue request_six) with_ue

displaces : handle_initial_ul_rrc env with_ue request_six ≡ done displaced
unfolding handle_initial_ul_rrc handle_rrc_setup_request create_ue new_ue identity_bits with_part1
    accept_setup send_rrc_setup send_f1ap
displaces = refl

-- The message of the UE with number 5 is no longer taken.
setup_displaces_example :
    (ue_number displaced ≡ some 6) × (handle_ul_rrc env displaced complete ≡ done displaced)
setup_displaces_example =
    setup_displaces env with_ue displaced request_six _ complete refl displaces (λ e. omega arith)
