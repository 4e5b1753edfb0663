-- ===== src/Examples/Startup.antt =====
-- A configuration, the start of the program with it, and a run up to the F1AP server.
use central_unit.Base.{
  ◌≡◌, ◌≢◌, ◌↔◌, ◌⊎◌, refl, true, false, [], ◌∷◌, length, none, some, panic, arith,
}
use central_unit.Base.Int.{ℤ, pos}
use central_unit.Bytes.{Bytes, equal}
use central_unit.Config.{Config, Disk, json, info, validate}
use central_unit.Config.Validate.{IsComplete, validate_iff}
use central_unit.Transport.{Network, connect}
use central_unit.Transport.ReadLoop.{
  Client, started, checking, go_on, read, enqueue, message, after_read, loop, take_first, here,
  next,
}
use central_unit.Transport.ReadLoop.Queue.{IsFaithful, Reachable-IsFaithful}
use central_unit.F1Server.{Listening}
use central_unit.Start.{init_context}
use central_unit.Start.Panics.{amf_conn, init_context_panic_iff}
use central_unit.Examples.Context.{env}

abbrev pub config : Config
config = record {
  cucp = record {
    node_id = b'1' ∷ [];
    node_name = b'c' ∷ b'u' ∷ [];
    plmn = record { mcc = b'9' ∷ b'9' ∷ b'9' ∷ []; mnc = b'7' ∷ b'0' ∷ []; mnc_length = pos 2 };
    slices = record { sst = b'0' ∷ b'1' ∷ []; sd = [] } ∷ [];
    tac = [];
  };
  f1ap = record {
    local_address = b'h' ∷ [];
    local_port = pos 38472;
    sctp = record { in_streams = 2; out_streams = 2 };
    f1_setup = pos 5;
  };
  e1ap = record {
    local_address = b'h' ∷ [];
    local_port = pos 38462;
    sctp = record { in_streams = 2; out_streams = 2 };
  };
  ngap = record {
    gnb_id = b'0' ∷ b'1' ∷ [];
    amf_address = b'a' ∷ [];
    amf_port = pos 38412;
    local_address = b'h' ∷ [];
    local_port = pos 9487;
    sctp = record { in_streams = 2; out_streams = 2 };
  };
  logging = record { level = info; format = json };
  features = record { split_architecture = true; connected_inactive_state = false };
  ue_store_shards = pos 64;
}

-- The same with one digit of the MNC.
abbrev one_digit : Config
one_digit = record config {
  cucp = record config.cucp { plmn = record config.cucp.plmn { mnc = b'7' ∷ [] } };
}

abbrev pub disk : Disk
disk = record { read_file = λ path. some []; decode = λ raw. some config }

abbrev pub net : Network
net = record {
  resolve = λ a. some a;
  dial = λ l r. some 4;
  subscribe = λ s. true;
  set_default_sent_param = λ s p. true;
  set_read_buffer = λ s n. true;
  close = λ s. true;
}

abbrev pub listening : Listening
listening = record { resolve_ip = λ a. some a; listen = λ a p. some 9 }

abbrev pub decimal : ℤ → Bytes
decimal n = b'1' ∷ []

complete : IsComplete one_digit
unfolding validate equal
complete = (validate_iff one_digit).0 refl

validate_iff_example : (validate config ≡ []) ↔ IsComplete config
validate_iff_example = validate_iff config

init_context_panic_iff_example : (init_context decimal net env one_digit ≡ panic) ↔ (
    (one_digit.ngap.gnb_id ≡ [])
    ⊎ ((one_digit.ngap.gnb_id ≢ [])
        × ((connect net (amf_conn decimal one_digit)).1 ≡ none)
        × (length one_digit.cucp.plmn.mnc ≡ 1)))
init_context_panic_iff_example = init_context_panic_iff decimal net env one_digit complete

abbrev raw : Bytes
raw = 1 ∷ []

-- The read loop delivers one message, which the consumer takes, and then stops.
abbrev read_one : Client
read_one = record started { place = checking; offered = raw ∷ []; taken = raw ∷ [] }

Reachable-IsFaithful_example : IsFaithful read_one
unfolding after_read
Reachable-IsFaithful_example = Reachable-IsFaithful (
    next
      (next (next (next here (loop (go_on refl refl))) (loop (read (message (some 60) raw) refl)))
        (loop (enqueue refl (omega arith))))
      (take_first refl))
