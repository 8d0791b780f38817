-- ===== src/Broker/Device.antt =====
-- src/broker.rs: the device end of a write: the last gate before the host write, and its outcomes.
use mathlib.Core.Bool.{xor}
use oh_myserial.Common.{
  ℕ, Bool, true, not, ◌&&◌, ◌||◌, List, [], ◌∷◌, Option, none, some, String, Result, ok, err, ◌>>=◌,
  ◌>>◌, guard, if◌then◌else◌, leb, ◌==◌, str_eq, is_some, is_some_and, length, any, fetch_add,
}
use oh_myserial.Common.Text.{◌^^◌, show}
use oh_myserial.Common.Map.{lookup, values}
use oh_myserial.Policy.{
  WriteLock, authorizes, AdmitDecision, allow, deny, AdmitContext, admit_write,
}
use oh_myserial.Ledger.Schema.{
  Externals, EventEnvelope, tx, gap, from_bytes, tx_outcome, partial_or_unknown,
}
use oh_myserial.Ledger.State.{EventStore, Moment, LedgerError, recorded_event}
use oh_myserial.Broker.State.{
  Broker, ClientId, ClientSlot, DeviceWrite, WriteError, write_denied, evidence_not_persisted,
  evidence_not_recorded,
}
use oh_myserial.Broker.Events.{control_event, log_event, record_event}

-- Whether a writable, eligible client has the configured primary's name.
unfoldable pub primary_is_connected : Option String → List (ClientId × ClientSlot) → Bool
primary_is_connected primary clients = is_some_and primary λ configured.
    any
      (λ slot.
        slot.info.can_write && slot.info.primary_eligible && str_eq slot.info.name configured)
      (values clients)

abbrev pub holds_lease : Option WriteLock → Option String → ℕ → Bool
holds_lease lock token now = is_some_and lock (λ l. authorizes l token now)

-- The facts that both callers of `admit_write` gather.
unfoldable pub admit_context :
    {S : Type 0} → Broker S → String → Bool → Option String → ℕ → AdmitContext
unfolding primary_is_connected
admit_context b name primary_eligible lease_token now = record {
  mode = b.policy.mode;
  client = name;
  primary = b.policy.primary;
  client_is_primary =
      primary_eligible && is_some_and b.policy.primary (λ configured. str_eq configured name);
  primary_connected = primary_is_connected b.policy.primary b.clients;
  lock = b.lock;
  lease_token = lease_token;
  now = now;
}

abbrev pub admitted : AdmitDecision → Result (Unit {0}) String
admitted allow = ok tt
admitted (deny reason) = err reason

abbrev pub or_err : {A : Type 0} → Option A → String → Result A String
or_err none e = err e
or_err (some a) e = ok a

-- The write's own token, if it has one, must still be that of the active lease.
abbrev pub lease_intact : Option WriteLock → Option String → ℕ → Bool
lease_intact lock none now = true
lease_intact lock (some token) now = holds_lease lock (some token) now

unfoldable pub validate_device_write :
    {S : Type 0} → Broker S → DeviceWrite → ℕ → Result (Unit {0}) String
validate_device_write b w now = do
  guard (not (is_some b.handoff)) "serial handoff is active; write was not attempted"
  guard (not (not b.port.connected || not (w.connection_epoch == b.connection_epoch)))
      "stale connection epoch"
  guard (not (leb w.deadline now)) "write deadline expired before the device write"
  client ←
      or_err (lookup w.client_id b.clients)
        "originating client disconnected before the device write"
  guard
      (not (
        not client.info.can_write
        || not (str_eq client.info.name w.actor)
        || xor client.info.primary_eligible w.primary_eligible))
      "originating client authority changed before the device write"
  guard (lease_intact b.lock w.lease_token now) "write lease expired, was released, or was replaced"
  admitted (admit_write (admit_context b w.actor client.info.primary_eligible w.lease_token now))

unfoldable pub count_deny : {S : Type 0} → Broker S → Broker S
count_deny b = record b { stats = record (b.stats) { tx_denies = fetch_add b.stats.tx_denies 1 } }

module _ (x : Externals) (es : EventStore) where
  open es use {Store}

  -- What the waiting sender is told, if there is one.
  abbrev completed :
      DeviceWrite → Result (Unit {0}) WriteError → Option (Result (Unit {0}) WriteError)
  completed w r = if w.completion then some r else none

  abbrev not_recorded : LedgerError → Option EventEnvelope → WriteError
  not_recorded e none = evidence_not_recorded e
  not_recorded e (some recorded) = evidence_not_persisted e

  abbrev evidence_result : Result EventEnvelope LedgerError → Result (Unit {0}) WriteError
  evidence_result (ok event) = ok tt
  evidence_result (err e) = err (not_recorded e (recorded_event e))

  unfoldable pub on_device_tx_written :
      Broker Store → DeviceWrite → Moment → Broker Store × Option (Result (Unit {0}) WriteError)
  on_device_tx_written b w t =
      let (b', evidence) =
        record_event x es b w.connection_epoch
          (tx (record {
            actor = w.actor;
            client_id = some w.client_id;
            bytes = from_bytes x w.bytes;
          }))
          t in
      (
        record b' {
          stats = record (b'.stats) { tx_bytes = fetch_add b'.stats.tx_bytes (length w.bytes) };
        },
        completed w (evidence_result evidence),
      )

  unfoldable pub on_device_tx_failed :
      Broker Store
      → DeviceWrite
      → String
      → Moment
      → Broker Store × Option (Result (Unit {0}) WriteError)
  on_device_tx_failed b w reason t = (
    log_event x es b w.connection_epoch
        (gap (record {
          scope = tx_outcome;
          certainty = partial_or_unknown;
          reason = reason;
          bytes = some (from_bytes x w.bytes);
          actor = some w.actor;
          client_ids = w.client_id ∷ [];
        }))
        t,
    completed w (
        err (
          write_denied ("device write failed; side effect may be partial or unknown: " ^^ reason))),
  )

  unfoldable pub on_device_tx_not_written :
      Broker Store
      → DeviceWrite
      → String
      → Moment
      → Broker Store × Option (Result (Unit {0}) WriteError)
  unfolding count_deny
  on_device_tx_not_written b w reason t = (
    count_deny (
        log_event x es b w.connection_epoch
          (control_event (some w.actor) "write_rejected" (
            some (
              "client_id="
              ^^ w.client_id
              ^^ " bytes="
              ^^ show (length w.bytes)
              ^^ " reason="
              ^^ reason)))
          t),
    completed w (err (write_denied ("device write was not attempted: " ^^ reason))),
  )
