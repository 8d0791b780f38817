-- ===== src/Broker/Epochs.antt =====
-- src/broker.rs: the connection epoch, and the writes that it makes stale.
use oh_myserial.Common.{ℕ, ap, List, [], ◌∷◌, ◌≤◌, ◌<◌, ◌≡◌, ◌≢◌, true, false, ok, arith, u64_max}
use oh_myserial.Ledger.Schema.{Externals}
use oh_myserial.Ledger.State.{EventStore, Moment}
use oh_myserial.Broker.State.{Broker, PortStatus, DeviceWrite}
use oh_myserial.Broker.Events.{enter_status, set_port_status}
use oh_myserial.Broker.Evidence.{log_event-Logged}
use oh_myserial.Broker.Device.{validate_device_write}
use oh_myserial.Broker.Authority.{validate_device_write-ok_iff}

module _ (x : Externals) (es : EventStore) where
  open es use {Store}

  pub set_port_status-epoch :
      (b : Broker Store) (status : PortStatus) (t : Moment)
      → (set_port_status x es b status t).connection_epoch
        ≡ (enter_status x es b status).connection_epoch
  unfolding set_port_status
  set_port_status-epoch b status t =
      ap (λ z. z.connection_epoch) (log_event-Logged x es (enter_status x es b status) _ _ t).same

  -- A sequence of status changes.
  unfoldable pub follow : Broker Store → List (PortStatus × Moment) → Broker Store
  follow b [] = b
  follow b ((status, t) ∷ rest) = follow (set_port_status x es b status t) rest

  enter_status-epoch :
      (b : Broker Store) (status : PortStatus)
      → b.connection_epoch ≤ u64_max
      → (b.connection_epoch ≤ (enter_status x es b status).connection_epoch)
        × ((enter_status x es b status).connection_epoch ≤ u64_max)
  unfolding enter_status
  enter_status-epoch b status h = ground arith

  -- An epoch that is a u64 never falls and stays a u64, whatever the port does.
  pub follow-epoch :
      (b : Broker Store) (changes : List (PortStatus × Moment))
      → b.connection_epoch ≤ u64_max
      → (b.connection_epoch ≤ (follow b changes).connection_epoch)
        × ((follow b changes).connection_epoch ≤ u64_max)
  unfolding follow
  follow-epoch b [] h = ground arith
  follow-epoch b ((status, t) ∷ rest) h =
      let step = enter_status-epoch b status h in
      ground (
        arith,
        set_port_status-epoch b status t,
        step,
        follow-epoch (set_port_status x es b status t) rest
            (ground (arith, set_port_status-epoch b status t, step)),
      )

  reconnect-epoch :
      (b : Broker Store) (status : PortStatus) (t : Moment)
      → b.port.connected ≡ false
      → status.connected ≡ true
      → b.connection_epoch < u64_max
      → b.connection_epoch < (set_port_status x es b status t).connection_epoch
  unfolding enter_status
  reconnect-epoch b status t down up room = ground (arith, set_port_status-epoch b status t)

  -- If the epoch of a disconnected port is below the largest u64, a write of an epoch up to it
  -- is refused after the reconnection, and after any status changes that follow.
  pub stale_write-rejected :
      (b : Broker Store) (status : PortStatus) (t : Moment) (changes : List (PortStatus × Moment))
      (w : DeviceWrite) (now : ℕ)
      → b.port.connected ≡ false
      → status.connected ≡ true
      → b.connection_epoch < u64_max
      → w.connection_epoch ≤ b.connection_epoch
      → validate_device_write (follow (set_port_status x es b status t) changes) w now ≢ ok tt
  stale_write-rejected b status t changes w now down up room old passed =
      let fresh = reconnect-epoch b status t down up room in
      let kept = follow-epoch (set_port_status x es b status t) changes (
        ground
          (arith, set_port_status-epoch b status t, enter_status-epoch b status (omega arith))) in
      let same = ((validate_device_write-ok_iff _ w now).0 passed).2 in omega arith
