-- ===== src/Transport/ReadLoop/Queue.antt =====
-- What reaches the consumer of the queue.
use central_unit.Base.{
  ◌+◌, ◌≤◌, ◌<◌, ◌≡◌, ◌∙◌, sym, ap, refl, ◌⊎◌, inl, inr, true, List, [], ◌∷◌, ◌++◌, length,
  length-append, append_assoc, arith,
}
use mathlib.Core.List.{Sublistᴰ}
use mathlib.Core.Path.{subst}
use central_unit.Bytes.{Bytes}
use central_unit.Transport.{default_channel_buffer}
use central_unit.Transport.ReadLoop.{
  Client, Place, at_place, stopped, reading, checking, after_read, queued, dropped, give_up, go_on,
  read, enqueue, give_up_offer, drop_offer, Step, loop, cancel, take_first, Reachable, here, next,
}

keep_last :
    (d : Bytes) {xs ys : List Bytes} → Sublistᴰ xs ys → Sublistᴰ (xs ++ d ∷ []) (ys ++ d ∷ [])
keep_last d Sublistᴰ.slnil = Sublistᴰ.cons-cons refl Sublistᴰ.slnil
keep_last d (Sublistᴰ.cons s) = Sublistᴰ.cons (keep_last d s)
keep_last d (Sublistᴰ.cons-cons e s) = Sublistᴰ.cons-cons e (keep_last d s)

skip_last : (d : Bytes) {xs ys : List Bytes} → Sublistᴰ xs ys → Sublistᴰ xs (ys ++ d ∷ [])
skip_last d Sublistᴰ.slnil = Sublistᴰ.cons Sublistᴰ.slnil
skip_last d (Sublistᴰ.cons s) = Sublistᴰ.cons (skip_last d s)
skip_last d (Sublistᴰ.cons-cons e s) = Sublistᴰ.cons-cons e (skip_last d s)

-- The queue is never over its capacity. What the consumer has taken and what is queued are, in
-- order, messages that were offered; all but the lost ones are there, and none is lost before the
-- cancellation as long as at most 5000 were offered.
pub record IsFaithful (c : Client) : Type 0 where
  pub bounded : length c.queue ≤ default_channel_buffer
  pub in_order : Sublistᴰ (c.taken ++ c.queue) c.offered
  pub counted : length c.offered ≡ length c.taken + length c.queue + c.lost
  pub no_loss : (c.lost ≡ 0) ⊎ (default_channel_buffer < length c.offered) ⊎ (c.cancelled ≡ true)

-- A step that changes neither the queue nor the history.
moved-IsFaithful : (c : Client) (p : Place) → IsFaithful c → IsFaithful (at_place c p)
moved-IsFaithful c p h = record {
  bounded = h.bounded;
  in_order = h.in_order;
  counted = h.counted;
  no_loss = h.no_loss;
}

queued-IsFaithful :
    (c : Client) (d : Bytes)
    → length c.queue < default_channel_buffer
    → IsFaithful c
    → IsFaithful (queued c d)
queued-IsFaithful c d room h = record {
  bounded = omega (arith, length-append c.queue (d ∷ []));
  in_order =
      subst (λ l. Sublistᴰ l (c.offered ++ d ∷ [])) (append_assoc c.taken c.queue (d ∷ []))
        (keep_last d h.in_order);
  counted =
      omega (arith, h.counted, length-append c.offered (d ∷ []), length-append c.queue (d ∷ []));
  no_loss = ground (arith, h.no_loss, length-append c.offered (d ∷ []));
}

dropped-IsFaithful :
    (c : Client) (d : Bytes) (p : Place)
    → (default_channel_buffer ≤ length c.queue) ⊎ (c.cancelled ≡ true)
    → IsFaithful c
    → IsFaithful (dropped c d p)
dropped-IsFaithful c d p why h = record {
  bounded = h.bounded;
  in_order = skip_last d h.in_order;
  counted = omega (arith, h.counted, length-append c.offered (d ∷ []));
  no_loss = ground (arith, why, h.counted, length-append c.offered (d ∷ []));
}

step-IsFaithful : {c d : Client} → Step c d → IsFaithful c → IsFaithful d
step-IsFaithful {c} (loop (give_up p q)) h = moved-IsFaithful c stopped h
step-IsFaithful {c} (loop (go_on p q)) h = moved-IsFaithful c reading h
step-IsFaithful {c} (loop (read r p)) h = moved-IsFaithful c (after_read r) h
step-IsFaithful {c} (loop (enqueue {d} p q)) h = queued-IsFaithful c d q h
step-IsFaithful {c} (loop (give_up_offer {d} p q)) h = dropped-IsFaithful c d stopped (inr q) h
step-IsFaithful {c} (loop (drop_offer {d} p q r)) h = dropped-IsFaithful c d checking (inl q) h
step-IsFaithful {c} cancel h = record {
  bounded = h.bounded;
  in_order = h.in_order;
  counted = h.counted;
  no_loss = inr (inr refl);
}
step-IsFaithful {c} (take_first {d} {rest} e) h = record {
  bounded = omega (arith, h.bounded, ap length e);
  in_order =
      subst (λ l. Sublistᴰ l c.offered)
        (ap (λ l. c.taken ++ l) e ∙ sym (append_assoc c.taken (d ∷ []) rest)) h.in_order;
  counted = omega (arith, h.counted, ap length e, length-append c.taken (d ∷ []));
  no_loss = h.no_loss;
}

-- In every state that the program can reach, the queue holds at most 5000 messages; what the
-- consumer has taken, followed by what is queued, is in the order of the messages that passed the
-- tests of the loop; all of those are there except the lost ones; and unless the context is
-- cancelled or more than 5000 messages were offered, none is lost.
pub Reachable-IsFaithful : {c : Client} → Reachable c → IsFaithful c
Reachable-IsFaithful here = record {
  bounded = omega arith;
  in_order = Sublistᴰ.slnil;
  counted = refl;
  no_loss = inl refl;
}
Reachable-IsFaithful (next r s) = step-IsFaithful s (Reachable-IsFaithful r)
