-- ===== src/Broker/Upkeep.antt =====
-- src/broker.rs: the registry, the reception and the port status keep the broker's invariant.
use oh_myserial.Common.{
  ℕ, ◌≤◌, inl, inr, Bool, List, [], ◌∷◌, Option, none, some, String, arith, length, ltb,
  if◌then◌else◌, Bool-cases,
}
use oh_myserial.Common.Map.{lookup, AllValues-insert, AllValues-remove}
use oh_myserial.Fanout.{Bytes, Wake}
use oh_myserial.Fanout.Bounds.{new-IsValid}
use oh_myserial.Ledger.Schema.{Externals, EventPayload}
use oh_myserial.Ledger.State.{EventStore, Moment}
use oh_myserial.Broker.State.{Broker, ClientId, ClientSlot, PortStatus}
use oh_myserial.Broker.Events.{set_port_status, enter_status, log_event}
use oh_myserial.Broker.Evidence.{log_event-Logged}
use oh_myserial.Broker.Clients.{
  new_slot, register_client_with_primary_eligibility, unregister_client, unregister_found,
}
use oh_myserial.Broker.Rx.{
  Clients, Delivery, unregister_all, receive, settle, delivery_gap, on_device_bytes, no_delivery,
  on_device_rx, push_history, count_rx, broadcast_rx, keep_history,
}
use oh_myserial.Broker.Invariant.{
  IsValid, Logged-IsValid, deliver-valid, recipients-valid, DeliveredValid,
}
use oh_myserial.Broker.Trimming.{push_history-length}

history_bounded :
    (cap : ℕ) (h bytes : List ℕ)
    → length h ≤ cap
    → length (if ltb 0 cap then push_history cap h bytes else h) ≤ cap
history_bounded cap h bytes l = elim (Bool-cases (ltb 0 cap)) [
  | inl some_room ↦ rw some_room (push_history-length cap h bytes l (ground arith))
  | inr no_room ↦ rw no_room l
]

pub count_rx-IsValid :
    {S : Type 0} (b : Broker S) (bytes : Bytes) → IsValid b → IsValid (count_rx b bytes)
unfolding count_rx
count_rx-IsValid b bytes v = record {
  ledger_ok = v.ledger_ok;
  queues_ok = v.queues_ok;
  history_ok = v.history_ok;
  epoch_ok = v.epoch_ok;
}

pub broadcast_rx-IsValid :
    {S : Type 0} (b : Broker S) (bytes : Bytes) → IsValid b → IsValid (broadcast_rx b bytes)
unfolding broadcast_rx
broadcast_rx-IsValid b bytes v = record {
  ledger_ok = v.ledger_ok;
  queues_ok = v.queues_ok;
  history_ok = v.history_ok;
  epoch_ok = v.epoch_ok;
}

pub keep_history-IsValid :
    {S : Type 0} (b : Broker S) (bytes : Bytes) → IsValid b → IsValid (keep_history b bytes)
unfolding keep_history
keep_history-IsValid b bytes v = record {
  ledger_ok = v.ledger_ok;
  queues_ok = v.queues_ok;
  history_ok = history_bounded b.history_cap b.history bytes v.history_ok;
  epoch_ok = v.epoch_ok;
}

module _ (x : Externals) (es : EventStore) where
  open es use {Store}

  pub logged :
      (b : Broker Store) (epoch : ℕ) (payload : EventPayload) (t : Moment)
      → IsValid b
      → IsValid (log_event x es b epoch payload t)
  logged b epoch payload t v = Logged-IsValid b _ (log_event-Logged x es b epoch payload t) v

  pub register-IsValid :
      (b : Broker Store) (id : ClientId) (name kind : String) (can_read can_write : Bool)
      (cap : Option ℕ) (primary_eligible : Bool) (t : Moment)
      → IsValid b
      → IsValid (
          register_client_with_primary_eligibility x es b id name kind can_read can_write cap
            primary_eligible t)
  unfolding register_client_with_primary_eligibility new_slot
  register-IsValid b id name kind can_read can_write cap primary_eligible t v =
      logged _ _ _ t (record {
        ledger_ok = v.ledger_ok;
        queues_ok = AllValues-insert _ id _ b.clients (new-IsValid _) v.queues_ok;
        history_ok = v.history_ok;
        epoch_ok = v.epoch_ok;
      })

  unregister_found-IsValid :
      (b : Broker Store) (id : ClientId) (o : Option ClientSlot) (t : Moment)
      → IsValid b
      → IsValid (unregister_found x es b id o t)
  unfolding unregister_found
  unregister_found-IsValid b id none t v = v
  unregister_found-IsValid b id (some slot) t v = logged _ _ _ t (record {
    ledger_ok = v.ledger_ok;
    queues_ok = AllValues-remove _ id b.clients v.queues_ok;
    history_ok = v.history_ok;
    epoch_ok = v.epoch_ok;
  })

  pub unregister-IsValid :
      (b : Broker Store) (id : ClientId) (t : Moment)
      → IsValid b
      → IsValid (unregister_client x es b id t)
  unfolding unregister_client
  unregister-IsValid b id t v = unregister_found-IsValid b id (lookup id b.clients) t v

  unregister_all-IsValid :
      (b : Broker Store) (ids : List ClientId) (t : Moment)
      → IsValid b
      → IsValid (unregister_all x es b ids t)
  unfolding unregister_all
  unregister_all-IsValid b [] t v = v
  unregister_all-IsValid b (id ∷ ids) t v =
      unregister_all-IsValid (unregister_client x es b id t) ids t (unregister-IsValid b id t v)

  receive-IsValid :
      (b : Broker Store) (bytes : Bytes) (t : Moment) → IsValid b → IsValid (receive x es b bytes t)
  unfolding receive
  receive-IsValid b bytes t v =
      keep_history-IsValid _ bytes (
        broadcast_rx-IsValid _ bytes (count_rx-IsValid _ bytes (logged b b.connection_epoch _ t v)))

  delivery_gap-IsValid :
      (b : Broker Store) (epoch : ℕ) (bytes : Bytes) (d : Delivery) (ids : List ClientId)
      (t : Moment)
      → IsValid b
      → IsValid (delivery_gap x es b epoch bytes d ids t)
  unfolding delivery_gap
  delivery_gap-IsValid b epoch bytes d [] t v = v
  delivery_gap-IsValid b epoch bytes d (id ∷ ids) t v = logged _ _ _ t v

  abbrev pub OptionValid : Option (Broker Store) → Type 0
  OptionValid none = Unit
  OptionValid (some b) = IsValid b

  settle-IsValid :
      (b : Broker Store) (epoch : ℕ) (bytes : Bytes) (o : Option (Clients × Delivery)) (t : Moment)
      → IsValid b
      → DeliveredValid o
      → OptionValid (settle x es b epoch bytes o t)
  unfolding settle
  settle-IsValid b epoch bytes none t v h = tt
  settle-IsValid b epoch bytes (some (clients, d)) t v h =
      delivery_gap-IsValid _ epoch bytes d d.delivery_gaps t (
        unregister_all-IsValid _ d.dead t (record {
          ledger_ok = v.ledger_ok;
          queues_ok = h;
          history_ok = v.history_ok;
          epoch_ok = v.epoch_ok;
        }))

  on_device_bytes-IsValid :
      (b : Broker Store) (bytes : Bytes) (wakes : ClientId → List Wake) (t : Moment)
      → IsValid b
      → OptionValid (on_device_bytes x es b bytes wakes t)
  unfolding on_device_bytes
  on_device_bytes-IsValid b bytes wakes t v =
      let received = receive-IsValid b bytes t v in
      settle-IsValid (receive x es b bytes t) b.connection_epoch bytes _ t received (
        deliver-valid _ bytes wakes _ _ no_delivery (recipients-valid _ received.queues_ok)
          received.queues_ok)

  pub on_device_rx-IsValid :
      (b : Broker Store) (bytes : Bytes) (wakes : ClientId → List Wake) (t : Moment)
      → IsValid b
      → OptionValid (on_device_rx x es b bytes wakes t)
  unfolding on_device_rx
  on_device_rx-IsValid b [] wakes t v = v
  on_device_rx-IsValid b (c ∷ cs) wakes t v = on_device_bytes-IsValid b (c ∷ cs) wakes t v

  pub set_port_status-IsValid :
      (b : Broker Store) (status : PortStatus) (t : Moment)
      → IsValid b
      → IsValid (set_port_status x es b status t)
  unfolding set_port_status enter_status
  set_port_status-IsValid b status t v =
      let entered = logged (enter_status x es b status) _ _ t (record {
        ledger_ok = v.ledger_ok;
        queues_ok = v.queues_ok;
        history_ok = v.history_ok;
        epoch_ok = ground (arith, v.epoch_ok);
      }) in
      record {
        ledger_ok = entered.ledger_ok;
        queues_ok = entered.queues_ok;
        history_ok = entered.history_ok;
        epoch_ok = entered.epoch_ok;
      }
