-- ===== src/Fanout/History.antt =====
-- src/broker.rs: the life of one client's queue, from its creation on.
use mathlib.Core.List.{Sublistᴰ, append_assoc}
use mathlib.Core.List.Sublistᴰ
use oh_myserial.Common.{ℕ, List, [], ◌∷◌, ◌++◌, Option, none, some}
use oh_myserial.Policy.{SlowClientPolicy}
use oh_myserial.Fanout.{Bytes, ClientFanout, new, act, Action, Wake, Enqueued, enqueue}
use oh_myserial.Fanout.Bounds.{IsValid, Leaves, new-IsValid, act-IsValid, enqueue-IsValid}
use oh_myserial.Fanout.Delivery.{Sub-append, Sub-prefix, Sub-nil, act-Sub, Offered, enqueue-Offered}

-- What the broker or the receiver does with the queue; the policy may differ from call to call.
pub data Operation : Type 0 where
  offers : Bytes → SlowClientPolicy → List Wake → Operation
  acts : Action → Operation

-- The queue, what its receiver has taken so far, and what it was offered so far.
pub record History : Type 0 where
  pub fanout : ClientFanout
  pub got : List Bytes
  pub offered : List Bytes

-- An offer that is still waiting has not happened yet.
after_offer : History → Bytes → Option Enqueued → History
after_offer h c none = h
after_offer h c (some e) = record {
  fanout = e.fanout;
  got = h.got ++ e.taken;
  offered = h.offered ++ c ∷ [];
}

after_act : History → ClientFanout × List Bytes → History
after_act h (f, taken) = record h { fanout = f; got = h.got ++ taken }

step : History → Operation → History
unfolding after_offer after_act
step h (offers c policy ws) = after_offer h c (enqueue h.fanout c policy ws)
step h (acts a) = after_act h (act a h.fanout)

unfoldable pub run : History → List Operation → History
unfolding step
run h [] = h
run h (o ∷ os) = run (step h o) os

abbrev pub start : ℕ → History
start capacity = record { fanout = new capacity; got = []; offered = [] }

pub record IsFaithful (h : History) : Type 0 where
  pub valid : IsValid h.fanout
  pub in_order : Sublistᴰ (h.got ++ h.fanout.pending) h.offered

after_offer-IsFaithful :
    (h : History) (c : Bytes) (o : Option Enqueued)
    → IsFaithful h
    → Leaves o (λ e. IsValid e.fanout)
    → Leaves o (Offered [] h.fanout c)
    → IsFaithful (after_offer h c o)
unfolding after_offer
after_offer-IsFaithful h c none i v d = i
after_offer-IsFaithful h c (some e) i v d = record {
  valid = v;
  in_order =
      Sublistᴰ.trans {l₂ = h.got ++ (h.fanout.pending ++ c ∷ [])}
        (simp append_assoc (Sub-prefix h.got d))
        (simp (← append_assoc) (Sub-append (c ∷ []) i.in_order));
}

step-IsFaithful : (h : History) (o : Operation) → IsFaithful h → IsFaithful (step h o)
unfolding step
step-IsFaithful h (offers c policy ws) i =
    after_offer-IsFaithful h c (enqueue h.fanout c policy ws) i
      (enqueue-IsValid h.fanout c policy ws i.valid) (enqueue-Offered h.fanout c policy ws)
step-IsFaithful h (acts a) i = record {
  valid = act-IsValid a h.fanout i.valid;
  in_order =
      Sublistᴰ.trans {l₂ = h.got ++ h.fanout.pending}
        (simp append_assoc (Sub-prefix h.got (act-Sub h.fanout a))) i.in_order;
}

run-IsFaithful : (h : History) (os : List Operation) → IsFaithful h → IsFaithful (run h os)
unfolding run
run-IsFaithful h [] i = i
run-IsFaithful h (o ∷ os) i = run-IsFaithful (step h o) os (step-IsFaithful h o i)

-- After any history of a client's queue, under any mixture of policies, waits and closings, the
-- queue is within its capacity, and what the client received followed by what it will receive is
-- a subsequence of what the device sent: no chunk is made up, repeated or reordered.
pub run-start-IsFaithful :
    (capacity : ℕ) (os : List Operation) → IsFaithful (run (start capacity) os)
unfolding new
run-start-IsFaithful capacity os =
    run-IsFaithful (start capacity) os
      (record { valid = new-IsValid capacity; in_order = Sub-nil [] })
