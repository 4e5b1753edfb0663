-- ===== src/Examples/Running.antt =====
-- A run of the program up to its first NG Setup Response.
use central_unit.Base.{◌≡◌, ◌⊎◌, refl, [], ◌∷◌, some, Run, done, panic, arith}
use central_unit.Bytes.{Bytes}
use central_unit.Bytes.Hex.{decode_string, from_hex_char, sprint_hex, hex_char}
use central_unit.Plmn.{get_mcc_and_mnc_in_octets, convert_mcc_mnc}
use central_unit.Amf.{
  ng_setup_response, added_items, added_plmn, added, added_slices, added_slice, log_loop,
  get_plmn_support, get_slice_support,
}
use central_unit.Transport.{SctpConn, new_sctp_conn, connect}
use central_unit.Transport.ReadLoop.{started, go_on, read, enqueue, message, after_read}
use central_unit.Cu.{CuCp, new_amf, get_octets, send_ngap}
use central_unit.Cu.Ngap.{
  dispatch, dispatch_ng_successful, handle_ng_setup_response, send_ng_setup_request,
}
use central_unit.Cu.Safety.{IsSound}
use central_unit.Start.{Outset, waiting, exited, configured, init_context}
use central_unit.System.{System, launched, SerialRun, here, next, read_loop, receive, ng_task}
use central_unit.System.Sound.{running-IsSound}
use central_unit.System.Ready.{IsEarly, Answered, setup_before_f1}
use central_unit.Examples.Context.{env}
use central_unit.Examples.Startup.{config, net, listening, decimal}

abbrev raw : Bytes
raw = 1 ∷ []

abbrev pub n2 : SctpConn
n2 = record {
  gnb_id = b'0' ∷ b'1' ∷ [];
  local_addr = b'h' ∷ b':' ∷ b'1' ∷ [];
  remote_addr = b'a' ∷ b':' ∷ b'1' ∷ [];
  conn = some 4;
  read_loops = 1;
}

abbrev waiting_or : Run Outset → CuCp → CuCp
waiting_or (done (waiting c _)) d = c
waiting_or (done (exited _)) d = d
waiting_or panic d = d

abbrev pub cu : CuCp
cu = waiting_or (init_context decimal net env config) (configured config)

pub starts : init_context decimal net env config ≡ done (waiting cu n2)
unfolding init_context configured new_amf new_sctp_conn connect send_ng_setup_request get_octets
    get_mcc_and_mnc_in_octets send_ngap
starts = refl

abbrev done_or : Run CuCp → CuCp → CuCp
done_or (done c) d = c
done_or panic d = d

abbrev ready : CuCp
ready = done_or (dispatch env cu raw) cu

answers : dispatch env cu raw ≡ done ready
unfolding init_context configured new_amf new_sctp_conn connect send_ng_setup_request get_octets
    get_mcc_and_mnc_in_octets send_ngap decode_string from_hex_char dispatch dispatch_ng_successful
    handle_ng_setup_response ng_setup_response added_items added_plmn added convert_mcc_mnc
    sprint_hex hex_char added_slices added_slice log_loop get_plmn_support get_slice_support
answers = refl

abbrev finished : System
finished = record (launched cu) {
  cu = ready;
  n2 = record started { offered = raw ∷ []; taken = raw ∷ [] };
  ng_handled = raw ∷ [];
}

run : SerialRun env net listening cu finished
unfolding after_read
run =
    next
      (next
        (next
          (next (next here (read_loop (go_on refl refl)))
            (read_loop (read (message (some 60) raw) refl)))
          (read_loop (enqueue refl (omega arith))))
        (receive raw [] refl))
      (ng_task raw [] [] ready refl answers)

running-IsSound_example : IsSound ready
running-IsSound_example = running-IsSound decimal net listening env config cu n2 finished starts run

setup_before_f1_example : IsEarly finished ⊎ Answered env (raw ∷ [])
setup_before_f1_example = setup_before_f1 decimal net listening env config cu n2 finished starts run
