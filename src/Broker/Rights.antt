-- ===== src/Broker/Rights.antt =====
-- src/broker.rs: admission and the lease keep the broker's invariant.
use oh_myserial.Common.{
  ℕ, Bool, List, Option, none, some, String, Result, ok, err, arith, inl, inr, Bool-cases,
}
use oh_myserial.Common.Map.{lookup, AllValues-update}
use oh_myserial.Policy.{WriteLock, active, authorizes, AdmitDecision, allow, deny, admit_write}
use oh_myserial.Fanout.{Bytes}
use oh_myserial.Ledger.Schema.{Externals}
use oh_myserial.Ledger.State.{EventStore, Moment}
use oh_myserial.Broker.State.{
  Broker, ClientId, ClientInfo, ClientSlot, HandoffState, Stats, DeviceWrite, validate_actor_label,
}
use oh_myserial.Broker.Events.{control_event}
use oh_myserial.Broker.Device.{count_deny, admit_context}
use oh_myserial.Broker.Admit.{purge, admit_tx, plan_purged, plan_client, plan_admitted, plan_frames}
use oh_myserial.Broker.Leases.{
  grant, acquire_purged, acquire_labelled, acquire_lock, renew_held, renew_lock, release_active,
  release_held, release_lock,
}
use oh_myserial.Broker.Exclusion.{LeaseCall, acquires, renews, releases, call}
use oh_myserial.Broker.Invariant.{IsValid}
use oh_myserial.Broker.Upkeep.{logged}

-- The lock, the handoff, the counters and the device queue are free to change.
pub reshaped :
    {S : Type 0} (b : Broker S) (lock : Option WriteLock) (handoff : Option HandoffState)
    (stats : Stats) (queue : List DeviceWrite)
    → IsValid b
    → IsValid (record b { lock = lock; handoff = handoff; stats = stats; device_queue = queue })
reshaped b lock handoff stats queue v = record {
  ledger_ok = v.ledger_ok;
  queues_ok = v.queues_ok;
  history_ok = v.history_ok;
  epoch_ok = v.epoch_ok;
}

module _ {S : Type 0} where
  refused-IsValid : (b : Broker S) → IsValid b → IsValid (count_deny b)
  unfolding count_deny
  refused-IsValid b v = reshaped b b.lock b.handoff _ b.device_queue v

  purge-IsValid : (b : Broker S) (now : ℕ) → IsValid b → IsValid (purge b now)
  unfolding purge
  purge-IsValid b now v = reshaped b _ b.handoff b.stats b.device_queue v

  plan_frames-IsValid :
      (b : Broker S) (info : ClientInfo) (frames : Result (List Bytes) String) (timeout : ℕ)
      → IsValid b
      → IsValid (plan_frames b info frames timeout).0
  unfolding plan_frames
  plan_frames-IsValid b info (err reason) timeout v = refused-IsValid b v
  plan_frames-IsValid b info (ok frames) timeout v = v

  plan_admitted-IsValid :
      (b : Broker S) (id : ClientId) (slot : ClientSlot) (bytes : Bytes) (atomic : Bool)
      (d : AdmitDecision)
      → IsValid b
      → IsValid (plan_admitted b id slot bytes atomic d).0
  unfolding plan_admitted
  plan_admitted-IsValid b id slot bytes atomic (deny reason) v = refused-IsValid b v
  plan_admitted-IsValid b id slot bytes atomic allow v =
      plan_frames-IsValid _ slot.info _ _ (record {
        ledger_ok = v.ledger_ok;
        queues_ok = AllValues-update _ id _ b.clients (λ s w. w) v.queues_ok;
        history_ok = v.history_ok;
        epoch_ok = v.epoch_ok;
      })

  plan_client-IsValid :
      (b : Broker S) (id : ClientId) (bytes : Bytes) (token : Option String) (atomic : Bool)
      (now : ℕ) (o : Option ClientSlot)
      → IsValid b
      → IsValid (plan_client b id bytes token atomic now o).0
  unfolding plan_client
  plan_client-IsValid b id bytes token atomic now none v = v
  plan_client-IsValid b id bytes token atomic now (some slot) v = ground (
    arith,
    refused-IsValid b v,
    plan_admitted-IsValid b id slot bytes atomic
        (admit_write (admit_context b slot.info.name slot.info.primary_eligible token now)) v,
  )

  pub admit_tx-IsValid :
      (b : Broker S) (id : ClientId) (bytes : Bytes) (token : Option String) (atomic : Bool)
      (now : ℕ)
      → IsValid b
      → IsValid (admit_tx b id bytes token atomic now).0
  unfolding admit_tx plan_purged
  admit_tx-IsValid b id bytes token atomic now v = ground (
    arith,
    refused-IsValid (purge b now) (purge-IsValid b now v),
    plan_client-IsValid (purge b now) id bytes token atomic now (lookup id (purge b now).clients)
        (purge-IsValid b now v),
  )

module _ (x : Externals) (es : EventStore) where
  open es use {Store}

  grant-IsValid :
      (b : Broker Store) (client fresh : String) (t : Moment)
      → IsValid b
      → IsValid (grant x es b client fresh t).0
  unfolding grant
  grant-IsValid b client fresh t v =
      logged x es _ b.connection_epoch _ t (reshaped b _ b.handoff b.stats b.device_queue v)

  acquire_purged-IsValid :
      (b : Broker Store) (client fresh : String) (t : Moment) (o : Option WriteLock)
      → IsValid b
      → IsValid (acquire_purged x es b client fresh t o).0
  unfolding acquire_purged
  acquire_purged-IsValid b client fresh t none v = grant-IsValid b client fresh t v
  acquire_purged-IsValid b client fresh t (some l) v =
      ground (arith, grant-IsValid b client fresh t v)

  acquire_labelled-IsValid :
      (b : Broker Store) (client fresh : String) (t : Moment) (r : Result (Unit {0}) String)
      → IsValid b
      → IsValid (acquire_labelled x es b client fresh t r).0
  unfolding acquire_labelled
  acquire_labelled-IsValid b client fresh t (err e) v = v
  acquire_labelled-IsValid b client fresh t (ok u) v = ground (
    arith,
    acquire_purged-IsValid (purge b t.instant) client fresh t (purge b t.instant).lock
        (purge-IsValid b t.instant v),
  )

  renew_held-IsValid :
      (b : Broker Store) (given : String) (t : Moment) (o : Option WriteLock)
      → IsValid b
      → IsValid (renew_held x es b given t o).0
  unfolding renew_held
  renew_held-IsValid b given t none v = v
  renew_held-IsValid b given t (some l) v = elim (Bool-cases (active l t.instant)) [
    | inl live ↦ elim (Bool-cases (authorizes l (some given) t.instant)) [
      | inl right ↦
          rw (live, right)
            (logged x es _ b.connection_epoch _ t (reshaped b _ b.handoff b.stats b.device_queue v))
      | inr wrong ↦ rw (live, wrong) v
    ]
    | inr over ↦ rw over (reshaped b none b.handoff b.stats b.device_queue v)
  ]

  release_active-IsValid :
      (b : Broker Store) (l : WriteLock) (given : Option String) (t : Moment)
      → IsValid b
      → IsValid (release_active x es b l given t).0
  unfolding release_active
  release_active-IsValid b l none t v = v
  release_active-IsValid b l (some g) t v = ground (
    arith,
    logged x es (record b { lock = none }) b.connection_epoch
        (control_event (some l.owner) "lease_released" none) t
        (reshaped b none b.handoff b.stats b.device_queue v),
  )

  release_held-IsValid :
      (b : Broker Store) (given : Option String) (t : Moment) (o : Option WriteLock)
      → IsValid b
      → IsValid (release_held x es b given t o).0
  unfolding release_held
  release_held-IsValid b given t none v = reshaped b none b.handoff b.stats b.device_queue v
  release_held-IsValid b given t (some l) v = ground (
    arith,
    release_active-IsValid b l given t v,
    reshaped b none b.handoff b.stats b.device_queue v,
  )

  pub call-IsValid :
      (b : Broker Store) (c : LeaseCall) (t : Moment) → IsValid b → IsValid (call x es b c t)
  unfolding call acquire_lock renew_lock release_lock
  call-IsValid b (acquires client fresh) t v =
      acquire_labelled-IsValid b client fresh t (validate_actor_label client) v
  call-IsValid b (renews given) t v = renew_held-IsValid b given t b.lock v
  call-IsValid b (releases given) t v = release_held-IsValid b given t b.lock v
