-- ===== src/Broker/Granting.antt =====
-- src/broker.rs: when the write lease is granted.
use oh_myserial.Common.{
  ℕ, ◌+◌, ◌≤◌, ◌<◌, ◌≡◌, refl, ap, ◌↔◌, not, if◌then◌else◌, inl, inr, true, Option, none, some,
  String, ok, arith, is_ok, is_some_and, Option-cases,
}
use oh_myserial.Policy.{WriteLock, active, lock_ttl}
use oh_myserial.Ledger.Schema.{Externals}
use oh_myserial.Ledger.State.{EventStore, Moment}
use oh_myserial.Broker.State.{Broker, validate_actor_label}
use oh_myserial.Broker.Events.{record_event}
use oh_myserial.Broker.Evidence.{log_event-Logged}
use oh_myserial.Broker.Admit.{purge}
use oh_myserial.Broker.Leases.{grant, acquire_lock}

-- The lock after the purge.
purged : Option WriteLock → ℕ → Option WriteLock
purged o now = if is_some_and o (λ l. not (active l now)) then none else o

purged_iff :
    (o : Option WriteLock) (now : ℕ)
    → (purged o now ≡ none) ↔ ((l : WriteLock) → o ≡ some l → l.expires_at ≤ now)
unfolding purged active
purged_iff none now = (λ e l h. ground arith, λ f. refl)
purged_iff (some k) now = (λ e l h. ground arith, λ f. ground (arith, f k refl))

purged_active :
    (o : Option WriteLock) (l : WriteLock) (now : ℕ) → purged o now ≡ some l → now < l.expires_at
unfolding purged active
purged_active none l now h = ground arith
purged_active (some k) l now h = ground arith

module _ (x : Externals) (es : EventStore) where
  open es use {Store}

  -- What a successful acquisition needs.
  abbrev pub Free : Broker Store → String → ℕ → Type 0
  Free b client now =
      (validate_actor_label client ≡ ok tt)
      × (b.handoff ≡ none)
      × ((l : WriteLock) → b.lock ≡ some l → l.expires_at ≤ now)

  purge-none_iff :
      (b : Broker Store) (now : ℕ)
      → ((purge b now).lock ≡ none) ↔ ((l : WriteLock) → b.lock ≡ some l → l.expires_at ≤ now)
  unfolding purge purged
  purge-none_iff b now = purged_iff b.lock now

  purge-lock_active :
      (b : Broker Store) (l : WriteLock) (now : ℕ)
      → (purge b now).lock ≡ some l
      → now < l.expires_at
  unfolding purge purged
  purge-lock_active b l now h = purged_active b.lock l now h

  grant-lock :
      (b : Broker Store) (client fresh : String) (t : Moment)
      → (grant x es b client fresh t).0.lock
        ≡ some
            (record { owner = client; token = fresh; expires_at = t.instant + lock_ttl b.policy })
  unfolding grant
  grant-lock b client fresh t =
      ap (λ z. z.lock) (log_event-Logged x es _ b.connection_epoch _ t).same

  grant-ok :
      (b : Broker Store) (client fresh : String) (t : Moment)
      → is_ok (grant x es b client fresh t).1 ≡ true
  unfolding grant
  grant-ok b client fresh t = refl

  acquire_lock-granted :
      (b : Broker Store) (client fresh : String) (t : Moment)
      → Free b client t.instant
      → acquire_lock x es b client fresh t ≡ grant x es (purge b t.instant) client fresh t
  unfolding acquire_lock purge record_event
  acquire_lock-granted b client fresh t (label, idle, none_active) =
      rw (label, idle, (purge-none_iff b t.instant).1 none_active) refl

  acquire-label :
      (b : Broker Store) (client fresh : String) (t : Moment)
      → is_ok (acquire_lock x es b client fresh t).1 ≡ true
      → validate_actor_label client ≡ ok tt
  unfolding acquire_lock
  acquire-label b client fresh t passed = ground arith

  acquire-idle :
      (b : Broker Store) (client fresh : String) (t : Moment)
      → is_ok (acquire_lock x es b client fresh t).1 ≡ true
      → b.handoff ≡ none
  unfolding acquire_lock
  acquire-idle b client fresh t passed = ground arith

  acquire-none :
      (b : Broker Store) (client fresh : String) (t : Moment)
      → is_ok (acquire_lock x es b client fresh t).1 ≡ true
      → (purge b t.instant).lock ≡ none
  unfolding acquire_lock active
  acquire-none b client fresh t passed = elim (Option-cases (purge b t.instant).lock) [
    | inl e ↦ e
    | inr (k, e) ↦ ground (arith, e, purge-lock_active b k t.instant e)
  ]

  acquire_lock-Free :
      (b : Broker Store) (client fresh : String) (t : Moment)
      → is_ok (acquire_lock x es b client fresh t).1 ≡ true
      → Free b client t.instant
  acquire_lock-Free b client fresh t passed = (
    acquire-label b client fresh t passed,
    acquire-idle b client fresh t passed,
    (purge-none_iff b t.instant).0 (acquire-none b client fresh t passed),
  )

  granted_lock :
      (b : Broker Store) (client fresh : String) (t : Moment)
      → Free b client t.instant
      → (acquire_lock x es b client fresh t).0.lock
        ≡ some
            (record { owner = client; token = fresh; expires_at = t.instant + lock_ttl b.policy })
  unfolding purge
  granted_lock b client fresh t f =
      rw (acquire_lock-granted b client fresh t f) (grant-lock (purge b t.instant) client fresh t)

  -- A lease is granted exactly when the label is valid, no handoff is there and no lease is active,
  -- and the lock is then the caller's, under the fresh token, for the configured time.
  pub acquire_lock-grants :
      (b : Broker Store) (client fresh : String) (t : Moment)
      → (is_ok (acquire_lock x es b client fresh t).1 ≡ true) ↔ (
          Free b client t.instant
          × ((acquire_lock x es b client fresh t).0.lock
              ≡ some (record {
                owner = client;
                token = fresh;
                expires_at = t.instant + lock_ttl b.policy;
              })))
  acquire_lock-grants b client fresh t = (
    λ passed.
        let f = acquire_lock-Free b client fresh t passed in (f, granted_lock b client fresh t f),
    λ f.
        rw (acquire_lock-granted b client fresh t f.0)
          (grant-ok (purge b t.instant) client fresh t),
  )
