-- ===== src/Broker/Invariant.antt =====
-- src/broker.rs: the invariant of the broker, and the parts that keep it.
use oh_myserial.Common.{
  ◌≤◌, ◌≡◌, sym, subst, inl, inr, List, [], ◌∷◌, Option, none, some, arith, length, u64_max,
  Bool-cases,
}
use oh_myserial.Common.Map.{AllValues, AllValues-update}
use oh_myserial.Policy.{SlowClientPolicy}
use oh_myserial.Fanout.{Bytes, ClientFanout, Wake, Enqueued, enqueue}
use oh_myserial.Fanout.Bounds.{new-IsValid, enqueue-IsValid, Leaves}
use oh_myserial.Broker.State.{Broker, ClientId}
use oh_myserial.Broker.Evidence.{Logged}
use oh_myserial.Broker.Rx.{Clients, Delivery, recipients, set_fanout, delivered, deliver}

-- Every client's queue is valid.
abbrev pub SlotsValid : Clients → Type 0
SlotsValid = AllValues (λ s. oh_myserial.Fanout.Bounds.IsValid s.fanout)

pub record IsValid {S : Type 0} (b : Broker S) : Type 0 where
  pub ledger_ok : oh_myserial.Ledger.Invariant.IsValid b.ledger
  pub queues_ok : SlotsValid b.clients
  pub history_ok : length b.history ≤ b.history_cap
  pub epoch_ok : b.connection_epoch ≤ u64_max

pub Logged-IsValid : {S : Type 0} (b b' : Broker S) → Logged b b' → IsValid b → IsValid b'
Logged-IsValid b b' g v = subst IsValid (sym g.same) (record {
  ledger_ok = g.ledger_ok v.ledger_ok;
  queues_ok = v.queues_ok;
  history_ok = v.history_ok;
  epoch_ok = v.epoch_ok;
})

-- The fan-outs that a delivery works on.
abbrev pub QueuesValid : List (ClientId × ClientFanout) → Type 0
QueuesValid = AllValues oh_myserial.Fanout.Bounds.IsValid

pub recipients-valid : (clients : Clients) → SlotsValid clients → QueuesValid (recipients clients)
unfolding recipients
recipients-valid [] h = h
recipients-valid ((id, slot) ∷ rest) h = elim (Bool-cases slot.info.can_read) [
  | inl readable ↦ rw readable (h.0, recipients-valid rest h.1)
  | inr write_only ↦ rw write_only (recipients-valid rest h.1)
]

-- What a delivery leaves, if it is not still waiting.
abbrev pub DeliveredValid : Option (Clients × Delivery) → Type 0
DeliveredValid none = Unit
DeliveredValid (some (clients, d)) = SlotsValid clients

delivered-valid :
    (clients : Clients) (d : Delivery) (id : ClientId) (o : Option Enqueued)
    → SlotsValid clients
    → Leaves o (λ e. oh_myserial.Fanout.Bounds.IsValid e.fanout)
    → DeliveredValid (delivered clients d id o)
unfolding delivered set_fanout
delivered-valid clients d id none h l = tt
delivered-valid clients d id (some e) h l =
    AllValues-update _ id (set_fanout e.fanout) clients (λ s v. l) h

module _ (policy : SlowClientPolicy) (bytes : Bytes) (wakes : ClientId → List Wake) where
  abbrev rest_delivered :
      List (ClientId × ClientFanout) → Option (Clients × Delivery) → Option (Clients × Delivery)
  rest_delivered rest none = none
  rest_delivered rest (some (clients, d)) = deliver policy bytes wakes rest clients d

  deliver-step :
      (id : ClientId) (fanout : ClientFanout) (rest : List (ClientId × ClientFanout))
      (clients : Clients) (d : Delivery)
      → deliver policy bytes wakes ((id, fanout) ∷ rest) clients d
        ≡ rest_delivered rest (delivered clients d id (enqueue fanout bytes policy (wakes id)))
  unfolding deliver
  deliver-step id fanout rest clients d = ground arith

  rest_valid :
      (rs : List (ClientId × ClientFanout)) (o : Option (Clients × Delivery))
      → ((clients : Clients) (d : Delivery)
          → SlotsValid clients
          → DeliveredValid (deliver policy bytes wakes rs clients d))
      → DeliveredValid o
      → DeliveredValid (rest_delivered rs o)
  rest_valid rs none k h = tt
  rest_valid rs (some (clients, d)) k h = k clients d h

  pub deliver-valid :
      (rs : List (ClientId × ClientFanout)) (clients : Clients) (d : Delivery)
      → QueuesValid rs
      → SlotsValid clients
      → DeliveredValid (deliver policy bytes wakes rs clients d)
  unfolding deliver
  deliver-valid [] clients d q h = h
  deliver-valid ((id, fanout) ∷ rs) clients d q h =
      subst DeliveredValid (sym (deliver-step id fanout rs clients d)) (
        rest_valid rs _ (λ c e s. deliver-valid rs c e q.1 s)
          (delivered-valid clients d id (enqueue fanout bytes policy (wakes id)) h
            (enqueue-IsValid fanout bytes policy (wakes id) q.0)))
