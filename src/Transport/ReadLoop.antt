-- ===== src/Transport/ReadLoop.antt =====
-- The read loop of internal/transport/sctpclient.go as a step relation: the goroutine `readLoop`
-- beside the consumer of `ReadCh` and the cancellation of the context. `offered`, `taken` and `lost`
-- are a history that the source does not keep.
pub mod Queue
use central_unit.Base.{
  ℕ, zero, suc, ◌+◌, ◌≤◌, ◌<◌, ◌≡◌, ◌≢◌, Bool, true, false, List, [], ◌∷◌, ◌++◌, length, Option,
  none, some, ◌==◌, if◌then◌else◌,
}
use central_unit.Bytes.{Bytes}
use central_unit.Transport.{ngap_ppid, default_channel_buffer}

-- What a call of `SCTPRead` delivers; `again` is EAGAIN or EINTR, and a nil info has no PPID.
pub data ReadResult : Type 0 where
  end_of_file again read_error : ReadResult
  message : (ppid : Option ℕ) (payload : Bytes) → ReadResult

-- Where the goroutine is: before the test of the context, in `SCTPRead`, before the send on the
-- channel, or behind its return, which closes the channel.
pub data Place : Type 0 where
  checking reading stopped : Place
  offering : Bytes → Place

pub record Client : Type 0 where
  pub place : Place
  pub queue : List Bytes
  pub cancelled : Bool
  pub offered : List Bytes
  pub taken : List Bytes
  pub lost : ℕ

unfoldable pub after_read : ReadResult → Place
after_read end_of_file = stopped
after_read again = checking
after_read read_error = stopped
after_read (message none payload) = checking
after_read (message (some ppid) payload) = if ppid == ngap_ppid then offering payload else checking

abbrev pub at_place : Client → Place → Client
at_place c p = record c { place = p }

-- A message leaves the loop: into the queue, or nowhere.
abbrev pub queued : Client → Bytes → Client
queued c d = record c { place = checking; queue = c.queue ++ d ∷ []; offered = c.offered ++ d ∷ [] }

abbrev pub dropped : Client → Bytes → Place → Client
dropped c d p = record c { place = p; offered = c.offered ++ d ∷ []; lost = c.lost + 1 }

-- One step of the goroutine. `read` is the return of `SCTPRead` with what the socket delivers, a step
-- that only the network makes possible: a call may block for ever, and that a step is listed here
-- does not say that it comes. Where both cases of the last `select` are ready, either is taken; its
-- default only where none is.
pub data LoopStep : Client → Client → Type 0 where
  give_up : {c : Client} → c.place ≡ checking → c.cancelled ≡ true → LoopStep c (at_place c stopped)
  go_on : {c : Client} → c.place ≡ checking → c.cancelled ≡ false → LoopStep c (at_place c reading)
  read : {c : Client} (r : ReadResult) → c.place ≡ reading → LoopStep c (at_place c (after_read r))
  enqueue :
      {c : Client} {d : Bytes}
      → c.place ≡ offering d
      → length c.queue < default_channel_buffer
      → LoopStep c (queued c d)
  give_up_offer :
      {c : Client} {d : Bytes}
      → c.place ≡ offering d
      → c.cancelled ≡ true
      → LoopStep c (dropped c d stopped)
  drop_offer :
      {c : Client} {d : Bytes}
      → c.place ≡ offering d
      → default_channel_buffer ≤ length c.queue
      → c.cancelled ≡ false
      → LoopStep c (dropped c d checking)

-- A step of the loop, of the context, or of the consumer.
pub data Step : Client → Client → Type 0 where
  loop : {c d : Client} → LoopStep c d → Step c d
  cancel : {c : Client} → Step c (record c { cancelled = true })
  take_first :
      {c : Client} {d : Bytes} {rest : List Bytes}
      → c.queue ≡ d ∷ rest
      → Step c (record c { queue = rest; taken = c.taken ++ d ∷ [] })

-- The state in which `Connect` starts the goroutine.
abbrev pub started : Client
started = record {
  place = checking;
  queue = [];
  cancelled = false;
  offered = [];
  taken = [];
  lost = 0;
}

pub data Reachable : Client → Type 0 where
  here : Reachable started
  next : {c d : Client} → Reachable c → Step c d → Reachable d
