-- ===== src/Broker/Control.antt =====
-- src/broker.rs: the control lines and the line settings, set through the serial owner under a live
-- lease; src/config.rs: the line settings.
use oh_myserial.Common.{
  ℕ, not, ◌&&◌, ◌||◌, Option, some, String, Result, ok, err, ◌>>◌, guard, leb, ◌==◌, is_some,
}
use oh_myserial.Common.Text.{◌^^◌, show, lowercase_is}
use oh_myserial.Ledger.Schema.{Externals}
use oh_myserial.Ledger.State.{EventStore, Moment}
use oh_myserial.Broker.State.{
  Broker, ControlCommand, validate_control, audit_name, audit_value, validate_actor_label,
}
use oh_myserial.Broker.Events.{control_event, log_event}
use oh_myserial.Broker.Handoff.{OwnerReply, reply_result, check_lease}

pub record SerialSettings : Type 0 where
  pub baud : ℕ
  pub databits : ℕ
  pub parity : String
  pub stopbits : ℕ
  pub flow : String

unfoldable pub validate_settings : SerialSettings → Result (Unit {0}) String
validate_settings s = do
  guard (not (s.baud == 0)) "baud must be greater than zero"
  guard (leb 5 s.databits && leb s.databits 8) "data bits must be 5..=8"
  guard ((s.stopbits == 1) || (s.stopbits == 2)) "stop bits must be 1 or 2"
  guard
      (lowercase_is s.parity "none" || lowercase_is s.parity "odd" || lowercase_is s.parity "even")
      "parity must be none, odd, or even"
  guard
      (lowercase_is s.flow "none"
        || lowercase_is s.flow "software"
        || lowercase_is s.flow "hardware")
      "flow must be none, software, or hardware"

module _ {S : Type 0} where
  unfoldable pub check_control :
      Broker S → String → Option String → ControlCommand → ℕ → Result (Unit {0}) String
  check_control b actor lease_token command now = do
    validate_actor_label actor
    validate_control command
    guard (not (is_some b.handoff)) "serial handoff is active; control is temporarily unavailable"
    guard b.port.connected "serial port is disconnected; control was not queued"
    check_lease b lease_token now "control requires an active write lease token"
        "control lease expired, was released, or was replaced"
    guard b.owner_attached "serial owner control channel is unavailable"

  unfoldable pub check_configure :
      Broker S → String → Option String → SerialSettings → ℕ → Result (Unit {0}) String
  check_configure b actor lease_token settings now = do
    validate_actor_label actor
    validate_settings settings
    guard (not (is_some b.handoff))
        "serial handoff is active; configuration is temporarily unavailable"
    guard b.port.connected "serial port is disconnected; configuration was not queued"
    check_lease b lease_token now "configuration requires an active write lease token"
        "configuration lease expired, was released, or was replaced"
    guard b.owner_attached "serial owner control channel is unavailable"

settings_text : SerialSettings → String
settings_text s =
    "baud="
    ^^ show s.baud
    ^^ " databits="
    ^^ show s.databits
    ^^ " parity="
    ^^ s.parity
    ^^ " stopbits="
    ^^ show s.stopbits
    ^^ " flow="
    ^^ s.flow

module _ (x : Externals) (es : EventStore) where
  open es use {Store}

  control_replied :
      Broker Store
      → ℕ
      → String
      → ControlCommand
      → Result (Unit {0}) String
      → Moment
      → Broker Store × Result (Unit {0}) String
  control_replied b epoch actor command (ok u) t = (
    log_event x es b epoch
        (control_event (some actor) (audit_name command) (some (audit_value command))) t,
    ok tt,
  )
  control_replied b epoch actor command (err error) t = (
    log_event x es b epoch
        (control_event (some actor) (audit_name command ^^ "_rejected") (some error)) t,
    err error,
  )

  control_checked :
      Broker Store
      → String
      → ControlCommand
      → (Broker Store → Broker Store)
      → OwnerReply
      → Moment
      → Result (Unit {0}) String
      → Broker Store × Result (Unit {0}) String
  unfolding control_replied
  control_checked b actor command others reply t (err e) = (b, err e)
  control_checked b actor command others reply t (ok u) =
      control_replied (others b) b.connection_epoch actor command
        (reply_result
          (record {
            dropped = "serial owner dropped the control acknowledgement";
            timed_out = "serial control acknowledgement timed out";
            closed = "serial owner control channel is closed";
            queue_expired = "serial control queue deadline expired";
          })
          reply)
        t

  unfoldable pub serial_control :
      Broker Store
      → String
      → Option String
      → ControlCommand
      → ℕ
      → (Broker Store → Broker Store)
      → OwnerReply
      → Moment
      → Broker Store × Result (Unit {0}) String
  unfolding control_checked
  serial_control b actor lease_token command now others reply t =
      control_checked b actor command others reply t (check_control b actor lease_token command now)

  configure_replied :
      Broker Store
      → ℕ
      → String
      → SerialSettings
      → Result (Unit {0}) String
      → Moment
      → Broker Store × Result (Unit {0}) String
  unfolding settings_text
  configure_replied b epoch actor settings (ok u) t = (
    log_event x es b epoch
        (control_event (some actor) "serial_configured" (some (settings_text settings))) t,
    ok tt,
  )
  configure_replied b epoch actor settings (err error) t = (
    log_event x es b epoch (control_event (some actor) "serial_configure_rejected" (some error)) t,
    err error,
  )

  configure_checked :
      Broker Store
      → String
      → SerialSettings
      → (Broker Store → Broker Store)
      → OwnerReply
      → Moment
      → Result (Unit {0}) String
      → Broker Store × Result (Unit {0}) String
  unfolding configure_replied
  configure_checked b actor settings others reply t (err e) = (b, err e)
  configure_checked b actor settings others reply t (ok u) =
      configure_replied (others b) b.connection_epoch actor settings
        (reply_result
          (record {
            dropped = "serial owner dropped the configuration acknowledgement";
            timed_out = "serial configuration acknowledgement timed out";
            closed = "serial owner control channel is closed";
            queue_expired = "serial configuration queue deadline expired";
          })
          reply)
        t

  unfoldable pub serial_configure :
      Broker Store
      → String
      → Option String
      → SerialSettings
      → ℕ
      → (Broker Store → Broker Store)
      → OwnerReply
      → Moment
      → Broker Store × Result (Unit {0}) String
  unfolding configure_checked
  serial_configure b actor lease_token settings now others reply t =
      configure_checked b actor settings others reply t
        (check_configure b actor lease_token settings now)
