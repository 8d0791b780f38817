-- ===== src/Broker/Status.antt =====
-- src/broker.rs: what the broker shows: the RX history and the status snapshot.
use oh_myserial.Common.{
  ℕ, ◌-◌, Bool, true, List, Option, none, some, String, map, as_millis, if◌then◌else◌,
}
use oh_myserial.Common.Map.{values}
use oh_myserial.Policy.{
  TxMode, queue_by_line, queue_by_frame, exclusive, primary_wins, WriteLock, active,
}
use oh_myserial.Fanout.{Bytes}
use oh_myserial.Broker.State.{Broker, ClientSlot, ClientInfo, EndpointView, HandoffState, Stats}

pub record PortStatusView : Type 0 where
  pub path : String
  pub baud : ℕ
  pub connected : Bool
  pub epoch : ℕ
  pub detail : String

pub record HandoffStatusView : Type 0 where
  pub active : Bool
  pub path : String
  pub expires_ms : ℕ

pub record StatusSnapshot : Type 0 where
  pub port : PortStatusView
  pub handoff : Option HandoffStatusView
  pub tx_mode : String
  pub lock_owner : Option String
  pub lock_expires_ms : Option ℕ
  pub endpoints : List EndpointView
  pub clients : List ClientInfo
  pub stats : Stats

abbrev pub mode_name : TxMode → String
mode_name queue_by_line = "queue_by_line"
mode_name queue_by_frame = "queue_by_frame"
mode_name exclusive = "exclusive"
mode_name primary_wins = "primary_wins"

lock_view : Option WriteLock → ℕ → Option String × Option ℕ
lock_view none now = (none, none)
lock_view (some l) now =
    if active l now then (some l.owner, some (as_millis (l.expires_at - now))) else (none, none)

handoff_view : Option HandoffState → ℕ → Option HandoffStatusView
handoff_view none now = none
handoff_view (some h) now =
    some (record { active = true; path = h.path; expires_ms = as_millis (h.expires_at - now) })

module _ {S : Type 0} where
  unfoldable pub history_bytes : Broker S → Bytes
  history_bytes b = b.history

  unfoldable pub snapshot : Broker S → ℕ → StatusSnapshot
  unfolding lock_view handoff_view
  snapshot b now =
      let (lock_owner, lock_expires_ms) = lock_view b.lock now in
      record {
        port = record {
          path = b.port.path;
          baud = b.port.baud;
          connected = b.port.connected;
          epoch = b.connection_epoch;
          detail = b.port.detail;
        };
        handoff = handoff_view b.handoff now;
        tx_mode = mode_name b.policy.mode;
        lock_owner = lock_owner;
        lock_expires_ms = lock_expires_ms;
        endpoints = b.endpoints;
        clients = map (λ (s : ClientSlot). s.info) (values b.clients);
        stats = b.stats;
      }
