-- ===== src/Transport/Close.antt =====
-- `Send` and `Close` of internal/transport/sctpclient.go, `Close` beside the read loop, for whose end
-- it waits.
use central_unit.Base.{
  ℕ, suc, ◌+◌, ◌≤◌, ◌<◌, ◌≡◌, ◌≢◌, refl, ◌⊎◌, inl, inr, Bool, true, false, Option, none, some,
  length, Bool-cases, arith,
}
use central_unit.Bytes.{Bytes}
use central_unit.Transport.{SctpConn, ngap_ppid, default_channel_buffer}
use central_unit.Transport.ReadLoop.{
  Client, Place, ReadResult, checking, reading, offering, stopped, end_of_file, read_error,
  at_place, after_read, LoopStep, give_up, go_on, read, enqueue, give_up_offer, drop_offer,
}

-- The call of `SCTPWrite` that is made, with its PPID, and whether the error is nil. The result of
-- that call is not looked at.
unfoldable pub send : SctpConn → Bytes → Option (ℕ × ℕ × Bytes) × Bool
send sc pdu = elim sc.conn [ none ↦ (none, false) | some s ↦ (some (s, ngap_ppid, pdu), true) ]

-- Where a call of `Close` is: before it, in `wg.Wait()`, and over, with whether the error is nil.
pub data Closer : Type 0 where
  calling in_wait : Closer
  over : Bool → Closer

pub record Closing : Type 0 where
  pub client : Client
  pub socket : Bool
  pub closer : Closer

-- A read on a socket that is closed fails.
unfoldable pub read_fails : ReadResult → Bool
read_fails end_of_file = true
read_fails read_error = true
read_fails _ = false

-- `socket` is whether the socket is open.
pub data CloseStep (c : Closing) : Closing → Type 0 where
  read_one :
      (r : ReadResult)
      → c.client.place ≡ reading
      → (c.socket ≡ false → read_fails r ≡ true)
      → CloseStep c (record c { client = at_place c.client (after_read r) })
  other_loop :
      {d : Client}
      → c.client.place ≢ reading
      → LoopStep c.client d
      → CloseStep c (record c { client = d })
  close_socket : c.closer ≡ calling → CloseStep c (record c { socket = false; closer = in_wait })
  close_error : c.closer ≡ calling → CloseStep c (record c { closer = over false })
  wait_over :
      c.closer ≡ in_wait → c.client.place ≡ stopped → CloseStep c (record c { closer = over true })

pub data CloseRun : ℕ → Closing → Closing → Type 0 where
  none_made : {c : Closing} → CloseRun 0 c c
  more : {n : ℕ} {c d e : Closing} → CloseStep c d → CloseRun n d e → CloseRun (suc n) c e

-- How many steps are left at most: those of the loop, and the return.
loop_left : Place → ℕ
loop_left stopped = 0
loop_left reading = 1
loop_left checking = 2
loop_left (offering d) = 3

closer_left : Closer → ℕ
closer_left calling = 2
closer_left in_wait = 1
closer_left (over b) = 0

left_of : Closing → ℕ
left_of c = loop_left c.client.place + closer_left c.closer

loop-left :
    {c d : Client} → c.place ≢ reading → LoopStep c d → loop_left d.place < loop_left c.place
unfolding loop_left
loop-left n (give_up p q) = ground arith
loop-left n (go_on p q) = ground arith
loop-left n (read r p) = absurd (n p)
loop-left n (enqueue p q) = ground arith
loop-left n (give_up_offer p q) = ground arith
loop-left n (drop_offer p q r) = ground arith

-- The socket stays closed, and the call stays past its start.
CloseStep-left :
    {c d : Closing}
    → CloseStep c d
    → c.socket ≡ false
    → (d.socket ≡ false) × (left_of d < left_of c)
unfolding left_of loop_left closer_left read_fails after_read
CloseStep-left (read_one r p f) h = ground (arith, f h)
CloseStep-left (other_loop {d} n s) h = (h, omega (arith, loop-left n s))
CloseStep-left (close_socket p) h = ground arith
CloseStep-left (close_error p) h = ground arith
CloseStep-left (wait_over p q) h = ground arith

CloseRun-left :
    {n : ℕ} {c d : Closing}
    → CloseRun n c d
    → c.socket ≡ false
    → (d.socket ≡ false) × (n + left_of d ≤ left_of c)
CloseRun-left none_made h = (h, omega arith)
CloseRun-left (more s r) h =
    let (k, less) = CloseStep-left s h in let (k', fewer) = CloseRun-left r k in (k', omega arith)

loop_or_stopped :
    (c : Closing) (p : Place) → c.client.place ≡ p → (p ≡ stopped) ⊎ ((d : Closing) × CloseStep c d)
unfolding read_fails
loop_or_stopped c stopped e = inl refl
loop_or_stopped c reading e = inr (_, read_one end_of_file e (λ h. refl))
loop_or_stopped c checking e = elim (Bool-cases c.client.cancelled) [
  | inl b ↦ inr (_, other_loop (λ h. cc) (give_up e b))
  | inr b ↦ inr (_, other_loop (λ h. cc) (go_on e b))
]
loop_or_stopped c (offering d) e = elim (Bool-cases c.client.cancelled) [
  | inl b ↦ inr (_, other_loop (λ h. cc) (give_up_offer e b))
  | inr b ↦ elim (room (length c.client.queue)) [
    | inl q ↦ inr (_, other_loop (λ h. cc) (enqueue e q))
    | inr q ↦ inr (_, other_loop (λ h. cc) (drop_offer e q b))
  ]
]
  where
    room : (n : ℕ) → (n < default_channel_buffer) ⊎ (default_channel_buffer ≤ n)
    room n = ground arith

closer_step :
    (c : Closing) (k : Closer)
    → c.closer ≡ k
    → ((b : Bool) × (k ≡ over b)) ⊎ ((d : Closing) × CloseStep c d)
closer_step c (over b) e = inl (b, refl)
closer_step c calling e = inr (_, close_error e)
closer_step c in_wait e = elim (loop_or_stopped c c.client.place refl) [
  | inl s ↦ inr (_, wait_over e s)
  | inr s ↦ inr s
]

left_at_most : (c : Closing) → c.closer ≡ in_wait → left_of c ≤ 4
unfolding left_of loop_left closer_left
left_at_most c h = ground arith

-- `Close` returns, also where the context is never cancelled: once the socket is closed, the loop and
-- the call make four steps together at most, where a read on the closed socket fails, and as
-- long as the call has not returned there is a step.
pub close-returns :
    {n : ℕ} {c d : Closing}
    → CloseRun n c d
    → c.socket ≡ false
    → c.closer ≡ in_wait
    → (n ≤ 4) × (((b : Bool) × (d.closer ≡ over b)) ⊎ ((e : Closing) × CloseStep d e))
close-returns {c} {d} r h k =
    let bound = CloseRun-left r h in
    (omega (arith, bound.1, left_at_most c k), closer_step d d.closer refl)
