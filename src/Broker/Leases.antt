-- ===== src/Broker/Leases.antt =====
-- src/broker.rs: the write lease. A fresh token, made from a random UUID, is an argument.
use oh_myserial.Common.{ℕ, ◌+◌, Option, none, some, String, Result, ok, err, if◌then◌else◌, is_some}
use oh_myserial.Common.Text.{◌^^◌, show}
use oh_myserial.Policy.{WriteLock, active, authorizes, lock_ttl}
use oh_myserial.Ledger.Schema.{Externals}
use oh_myserial.Ledger.State.{EventStore, Moment}
use oh_myserial.Broker.State.{Broker, validate_actor_label}
use oh_myserial.Broker.Events.{control_event, log_event}
use oh_myserial.Broker.Admit.{purge}

pub record WriteLockView : Type 0 where
  pub owner : String
  pub expires_ms : ℕ
  pub lease_token : String

ttl_text : ℕ → Option String
ttl_text expires_ms = some ("ttl_ms=" ^^ show expires_ms)

module _ (x : Externals) (es : EventStore) where
  open es use {Store}

  unfoldable pub grant :
      Broker Store → String → String → Moment → Broker Store × Result WriteLockView String
  unfolding ttl_text
  grant b client token t = (
    log_event x es
        (record b {
          lock = some (record {
            owner = client;
            token = token;
            expires_at = t.instant + lock_ttl b.policy;
          });
        })
        b.connection_epoch
        (control_event (some client) "lease_acquired" (ttl_text b.policy.write_lock_ms)) t,
    ok (record { owner = client; expires_ms = b.policy.write_lock_ms; lease_token = token }),
  )

  -- After the purge a lock that is there is active; the source tests it again.
  unfoldable pub acquire_purged :
      Broker Store
      → String
      → String
      → Moment
      → Option WriteLock
      → Broker Store × Result WriteLockView String
  unfolding grant
  acquire_purged b client token t none = grant b client token t
  acquire_purged b client token t (some lock) =
      if active lock t.instant
      then (b, err ("write lease held by '" ^^ lock.owner ^^ "'; renew it with its lease token"))
      else grant b client token t

  unfoldable pub acquire_labelled :
      Broker Store
      → String
      → String
      → Moment
      → Result (Unit {0}) String
      → Broker Store × Result WriteLockView String
  unfolding acquire_purged
  acquire_labelled b client token t (err e) = (b, err e)
  acquire_labelled b client token t (ok u) =
      if is_some b.handoff
      then (b, err "serial handoff is active; acquire a lease after resume")
      else acquire_purged (purge b t.instant) client token t (purge b t.instant).lock

  unfoldable pub acquire_lock :
      Broker Store → String → String → Moment → Broker Store × Result WriteLockView String
  unfolding acquire_labelled
  acquire_lock b client token t = acquire_labelled b client token t (validate_actor_label client)

  unfoldable pub renew_held :
      Broker Store → String → Moment → Option WriteLock → Broker Store × Result WriteLockView String
  unfolding ttl_text
  renew_held b lease_token t none = (b, err "no active write lease")
  renew_held b lease_token t (some lock) =
      if active lock t.instant
      then if authorizes lock (some lease_token) t.instant
        then (
          log_event x es
              (record b {
                lock = some (record lock { expires_at = t.instant + lock_ttl b.policy });
              })
              b.connection_epoch
              (control_event (some lock.owner) "lease_renewed" (ttl_text b.policy.write_lock_ms)) t,
          ok (record {
            owner = lock.owner;
            expires_ms = b.policy.write_lock_ms;
            lease_token = lock.token;
          }),
        )
        else (b, err "invalid lease token")
      else (record b { lock = none }, err "write lease expired")

  unfoldable pub renew_lock :
      Broker Store → String → Moment → Broker Store × Result WriteLockView String
  unfolding renew_held
  renew_lock b lease_token t = renew_held b lease_token t b.lock

  unfoldable pub release_active :
      Broker Store → WriteLock → Option String → Moment → Broker Store × Result (Unit {0}) String
  release_active b lock none t = (b, err "lease token is required")
  release_active b lock (some token) t =
      if authorizes lock (some token) t.instant
      then (
        log_event x es (record b { lock = none }) b.connection_epoch
            (control_event (some lock.owner) "lease_released" none) t,
        ok tt,
      )
      else (b, err "invalid lease token")

  unfoldable pub release_held :
      Broker Store
      → Option String
      → Moment
      → Option WriteLock
      → Broker Store × Result (Unit {0}) String
  unfolding release_active
  release_held b lease_token t none = (record b { lock = none }, ok tt)
  release_held b lease_token t (some lock) =
      if active lock t.instant
      then release_active b lock lease_token t
      else (record b { lock = none }, ok tt)

  unfoldable pub release_lock :
      Broker Store → Option String → Moment → Broker Store × Result (Unit {0}) String
  unfolding release_held
  release_lock b lease_token t = release_held b lease_token t b.lock
