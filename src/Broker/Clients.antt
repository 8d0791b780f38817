-- ===== src/Broker/Clients.antt =====
-- src/broker.rs: registration of clients. The fresh identifier is an argument.
use oh_myserial.Common.{ℕ, Bool, true, Option, none, some, String, max}
use oh_myserial.Common.Text.{◌^^◌}
use oh_myserial.Common.Map.{lookup, insert, remove}
use oh_myserial.Policy.Frames.{empty_assembler}
use oh_myserial.Fanout.{new}
use oh_myserial.Ledger.Schema.{Externals}
use oh_myserial.Ledger.State.{EventStore, Moment}
use oh_myserial.Broker.State.{Broker, ClientId, ClientInfo, ClientSlot}
use oh_myserial.Broker.Events.{control_event, log_event}

abbrev queue_capacity : Option ℕ → ℕ → ℕ
queue_capacity none client_queue = max client_queue 1
queue_capacity (some cap) client_queue = max cap 1

unfoldable pub new_slot : ClientInfo → ℕ → ClientSlot
new_slot info cap = record { info = info; fanout = new cap; assembler = empty_assembler }

module _ (x : Externals) (es : EventStore) where
  open es use {Store}

  unfoldable pub register_client_with_primary_eligibility :
      Broker Store
      → ClientId
      → String
      → String
      → Bool
      → Bool
      → Option ℕ
      → Bool
      → Moment
      → Broker Store
  register_client_with_primary_eligibility b id name kind can_read can_write queue_cap
        primary_eligible t =
      let info : ClientInfo = record {
        id = id;
        name = name;
        kind = kind;
        can_read = can_read;
        can_write = can_write;
        primary_eligible = primary_eligible;
      } in
      log_event x es
        (record b {
          clients =
              insert id (new_slot info (queue_capacity queue_cap b.policy.client_queue)) b.clients;
        })
        b.connection_epoch
        (control_event (some name) "client_joined" (some ("id=" ^^ id ^^ " kind=" ^^ kind))) t

  unfoldable pub register_client :
      Broker Store → ClientId → String → String → Bool → Bool → Option ℕ → Moment → Broker Store
  register_client b id name kind can_read can_write queue_cap t =
      register_client_with_primary_eligibility b id name kind can_read can_write queue_cap true t

  -- The removed slot's queue is closed as it leaves the registry.
  unfoldable pub unregister_found :
      Broker Store → ClientId → Option ClientSlot → Moment → Broker Store
  unregister_found b id none t = b
  unregister_found b id (some slot) t =
      log_event x es (record b { clients = remove id b.clients }) b.connection_epoch
        (control_event (some slot.info.name) "client_left"
          (some ("id=" ^^ id ^^ " kind=" ^^ slot.info.kind)))
        t

  unfoldable pub unregister_client : Broker Store → ClientId → Moment → Broker Store
  unfolding unregister_found
  unregister_client b id t = unregister_found b id (lookup id b.clients) t
