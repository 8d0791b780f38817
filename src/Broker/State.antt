-- ===== src/Broker/State.antt =====
-- src/broker.rs: the broker's types and its state. The session log is output only and left out; the
-- connection time of a client is shown nowhere and left out.
use oh_myserial.Common.{
  ℕ, Bool, true, false, List, Option, String, Result, ok, ltb, leb, not, ◌&&◌, ◌>>◌, guard,
}
use oh_myserial.Common.Text.{byte_len, has_control, is_blank, ◌^^◌, show}
use oh_myserial.Policy.{Policy, WriteLock}
use oh_myserial.Policy.Frames.{FrameAssembler}
use oh_myserial.Fanout.{Bytes, ClientFanout}
use oh_myserial.Ledger.State.{Ledger, LedgerError}

-- `ClientId`, a v4 UUID, as its text.
abbrev pub ClientId : Type 0
ClientId = String

pub record ClientInfo : Type 0 where
  pub id : ClientId
  pub name : String
  pub kind : String
  pub can_read : Bool
  pub can_write : Bool
  pub primary_eligible : Bool

pub record ClientSlot : Type 0 where
  pub info : ClientInfo
  pub fanout : ClientFanout
  pub assembler : FrameAssembler

pub record PortStatus : Type 0 where
  pub path : String
  pub baud : ℕ
  pub connected : Bool
  pub detail : String

pub record EndpointView : Type 0 where
  pub kind : String
  pub name : String
  pub address : String
  pub can_read : Bool
  pub can_write : Bool
  pub note : String

pub record HandoffState : Type 0 where
  pub token : String
  pub path : String
  pub expires_at : ℕ

-- `completion`: whether a sender waits for the outcome.
pub record DeviceWrite : Type 0 where
  pub bytes : Bytes
  pub client_id : ClientId
  pub connection_epoch : ℕ
  pub lease_token : Option String
  pub primary_eligible : Bool
  pub deadline : ℕ
  pub actor : String
  pub completion : Bool

pub record Stats : Type 0 where
  pub rx_bytes : ℕ
  pub tx_bytes : ℕ
  pub rx_drops : ℕ
  pub rx_drop_oldest : ℕ
  pub rx_drop_newest : ℕ
  pub rx_block_events : ℕ
  pub slow_disconnects : ℕ
  pub tx_denies : ℕ

abbrev pub no_stats : Stats
no_stats = record {
  rx_bytes = 0;
  tx_bytes = 0;
  rx_drops = 0;
  rx_drop_oldest = 0;
  rx_drop_newest = 0;
  rx_block_events = 0;
  slow_disconnects = 0;
  tx_denies = 0;
}

-- `BrokerState` with what the handle `Broker` shares: the ledger, the bounded queue of device
-- writes, what the raw RX broadcast was sent, the watched port status, and whether the serial owner
-- has attached its control channel.
pub record Broker (S : Type 0) : Type 0 where
  pub clients : List (ClientId × ClientSlot)
  pub policy : Policy
  pub lock : Option WriteLock
  pub handoff : Option HandoffState
  pub port : PortStatus
  pub connection_epoch : ℕ
  pub history : List ℕ
  pub history_cap : ℕ
  pub endpoints : List EndpointView
  pub stats : Stats
  pub persistence_gap_reported : Bool
  pub ledger : Ledger S
  pub device_queue : List DeviceWrite
  pub rx_broadcast : List Bytes
  pub port_watch : PortStatus
  pub owner_attached : Bool

pub data ControlCommand : Type 0 where
  dtr rts : Bool → ControlCommand
  break_for : ℕ → ControlCommand

unfoldable pub validate_control : ControlCommand → Result (Unit {0}) String
validate_control (dtr level) = ok tt
validate_control (rts level) = ok tt
validate_control (break_for duration_ms) =
    guard (leb 1 duration_ms && leb duration_ms 1000) "break duration_ms must be between 1 and 1000"

abbrev pub audit_name : ControlCommand → String
audit_name (dtr level) = "dtr"
audit_name (rts level) = "rts"
audit_name (break_for duration_ms) = "break"

abbrev show_bool : Bool → String
show_bool true = "true"
show_bool false = "false"

unfoldable pub audit_value : ControlCommand → String
audit_value (dtr level) = show_bool level
audit_value (rts level) = show_bool level
audit_value (break_for duration_ms) = "duration_ms=" ^^ show duration_ms

unfoldable pub validate_actor_label : String → Result (Unit {0}) String
validate_actor_label label = do
  guard (not (is_blank label)) "client label must not be empty"
  guard (not (ltb 128 (byte_len label))) "client label must be at most 128 bytes"
  guard (not (has_control label)) "client label must not contain control characters"

-- The reason that a caller of a write is given. A reason that prints a ledger error holds it.
pub data WriteError : Type 0 where
  write_denied : String → WriteError
  evidence_not_persisted evidence_not_recorded : LedgerError → WriteError
