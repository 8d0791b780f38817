-- ===== src/Broker/Events.antt =====
-- src/broker.rs: what the broker records in the ledger, and the status of the port.
use oh_myserial.Common.{
  ℕ, true, false, not, ◌&&◌, ◌||◌, List, [], Option, none, some, String, Result, err, if◌then◌else◌,
  str_eq, saturating_add,
}
use oh_myserial.Common.Text.{◌^^◌, show, starts_with}
use oh_myserial.Policy.{Policy}
use oh_myserial.Ledger.Schema.{
  Externals, EventPayload, EventEnvelope, control, gap, connection, ConnectionState, connected,
  disconnected, reconnecting, open_failed, persistence, not_delivered,
}
use oh_myserial.Ledger.State.{EventStore, Ledger, LedgerError, Moment, persistence_degraded}
use oh_myserial.Ledger.Operations.{append}
use oh_myserial.Broker.State.{Broker, PortStatus, EndpointView, no_stats}

-- `Broker::new_with_ledger`; the queue's bound is the receiver's business.
unfoldable pub new_with_ledger : {S : Type 0} → Policy → PortStatus → ℕ → Ledger S → Broker S
new_with_ledger policy port history_cap ledger = record {
  clients = [];
  policy = policy;
  lock = none;
  handoff = none;
  port = port;
  connection_epoch = if port.connected then 1 else 0;
  history = [];
  history_cap = history_cap;
  endpoints = [];
  stats = no_stats;
  persistence_gap_reported = false;
  ledger = ledger;
  device_queue = [];
  rx_broadcast = [];
  port_watch = port;
  owner_attached = false;
}

unfoldable pub attach_serial_control : {S : Type 0} → Broker S → Broker S
attach_serial_control b = record b { owner_attached = true }

unfoldable pub detach_serial_control : {S : Type 0} → Broker S → Broker S
detach_serial_control b = record b { owner_attached = false }

unfoldable pub set_endpoints : {S : Type 0} → Broker S → List EndpointView → Broker S
set_endpoints b endpoints = record b { endpoints = endpoints }

-- The text of `LedgerError::PersistenceDegraded`.
pub degraded_text : EventEnvelope → String → String
degraded_text e detail =
    "event " ^^ show e.seq ^^ " is in the ring, but persistence is degraded: " ^^ detail

abbrev pub control_event : Option String → String → Option String → EventPayload
control_event actor name value = control (record { actor = actor; name = name; value = value })

module _ (x : Externals) (es : EventStore) where
  open es use {Store}

  -- The warning that durable evidence has ceased.
  pub persistence_gap : EventEnvelope → String → EventPayload
  persistence_gap e detail = gap (record {
    scope = persistence;
    certainty = not_delivered;
    reason = degraded_text e detail;
    bytes = none;
    actor = none;
    client_ids = [];
  })

  unfoldable pub first_degraded : Broker Store → ℕ → EventPayload → Moment → Broker Store
  first_degraded b epoch payload t = if b.persistence_gap_reported then b else record b {
    persistence_gap_reported = true;
    ledger = (append x es b.ledger epoch payload t).0;
  }

  unfoldable pub after_append :
      Broker Store → ℕ → Moment → Result EventEnvelope LedgerError → Broker Store
  unfolding first_degraded
  after_append b epoch t (err (persistence_degraded e detail)) =
      first_degraded b epoch (persistence_gap e detail) t
  after_append b epoch t _ = b

  unfoldable pub record_event :
      Broker Store → ℕ → EventPayload → Moment → Broker Store × Result EventEnvelope LedgerError
  unfolding after_append
  record_event b epoch payload t =
      let (ledger, r) = append x es b.ledger epoch payload t in
      (after_append (record b { ledger = ledger }) epoch t r, r)

  abbrev pub log_event : Broker Store → ℕ → EventPayload → Moment → Broker Store
  log_event b epoch payload t = (record_event b epoch payload t).0

  unfoldable pub record_control :
      Broker Store
      → Option String
      → String
      → Option String
      → Moment
      → Broker Store × Result EventEnvelope LedgerError
  record_control b actor name value t =
      record_event b b.connection_epoch (control_event actor name value) t

  unfoldable pub connection_state : PortStatus → ConnectionState
  connection_state status =
      if status.connected
      then connected
      else if starts_with status.detail "open error:"
      then open_failed
      else if str_eq status.detail "starting" || str_eq status.detail "reconnecting"
      then reconnecting
      else disconnected

  -- The first critical section of `set_port_status`.
  unfoldable pub enter_status : Broker Store → PortStatus → Broker Store
  enter_status b status = record b {
    connection_epoch =
        if status.connected && not b.port.connected
        then saturating_add b.connection_epoch 1
        else b.connection_epoch;
    port = status;
  }

  unfoldable pub set_port_status : Broker Store → PortStatus → Moment → Broker Store
  unfolding enter_status connection_state
  set_port_status b status t =
      let entered = enter_status b status in
      let b' =
        log_event entered entered.connection_epoch
          (connection (record {
            state = connection_state status;
            path = status.path;
            baud = status.baud;
            detail = some status.detail;
          }))
          t in
      record b' { port_watch = status }
