-- ===== src/Broker/Exclusion.antt =====
-- src/broker.rs: acquire_lock, renew_lock and release_lock against a lease that another client holds.
use oh_myserial.Common.{
  ℕ, ◌<◌, ◌≡◌, ◌≢◌, List, [], ◌∷◌, Option, none, some, String, ok, arith, eq_iff,
}
use oh_myserial.Policy.{AdmitContext, WriteLock, active, authorizes}
use oh_myserial.Policy.Admission.{Permitted}
use oh_myserial.Ledger.Schema.{Externals}
use oh_myserial.Ledger.State.{EventStore, Moment}
use oh_myserial.Broker.State.{Broker, DeviceWrite}
use oh_myserial.Broker.Admit.{purge}
use oh_myserial.Broker.Leases.{acquire_lock, renew_lock, release_lock}
use oh_myserial.Broker.Device.{admit_context, validate_device_write}
use oh_myserial.Broker.Authority.{validate_device_write-ok_iff}

-- A call of the lease API; a fresh token is part of an acquisition.
pub data LeaseCall : Type 0 where
  acquires : String → String → LeaseCall
  renews : String → LeaseCall
  releases : Option String → LeaseCall

-- The call comes with the token.
abbrev pub Presents : LeaseCall → String → Type 0
Presents (acquires client fresh) token = ⊥
Presents (renews given) token = given ≡ token
Presents (releases none) token = ⊥
Presents (releases (some given)) token = given ≡ token

-- The calls come before the lease ends and without its token.
abbrev pub Strangers : WriteLock → List (LeaseCall × Moment) → Type 0
Strangers l [] = Unit
Strangers l ((c, t) ∷ rest) = (t.instant < l.expires_at) × (¬ Presents c l.token) × Strangers l rest

Permitted-token :
    (ctx : AdmitContext) (l : WriteLock) (lock : Option WriteLock)
    → lock ≡ some l
    → ctx.now < l.expires_at
    → Permitted ctx lock
    → ctx.lease_token ≡ some l.token
Permitted-token ctx l none h live p = ground arith
Permitted-token ctx l (some k) h live p = ground arith

module _ (x : Externals) (es : EventStore) where
  open es use {Store}

  unfoldable pub call : Broker Store → LeaseCall → Moment → Broker Store
  call b (acquires client fresh) t = (acquire_lock x es b client fresh t).0
  call b (renews given) t = (renew_lock x es b given t).0
  call b (releases given) t = (release_lock x es b given t).0

  purge-active :
      (b : Broker Store) (l : WriteLock) (now : ℕ)
      → b.lock ≡ some l
      → now < l.expires_at
      → (purge b now).lock ≡ some l
  unfolding purge active
  purge-active b l now h live = ground arith

  acquire-kept :
      (b : Broker Store) (l : WriteLock) (client fresh : String) (t : Moment)
      → b.lock ≡ some l
      → t.instant < l.expires_at
      → (acquire_lock x es b client fresh t).0.lock ≡ some l
  unfolding acquire_lock active
  acquire-kept b l client fresh t h live = ground (arith, purge-active b l t.instant h live)

  renew-kept :
      (b : Broker Store) (l : WriteLock) (given : String) (t : Moment)
      → b.lock ≡ some l
      → t.instant < l.expires_at
      → given ≢ l.token
      → (renew_lock x es b given t).0.lock ≡ some l
  unfolding renew_lock active authorizes
  renew-kept b l given t h live other = ground (arith, eq_iff given l.token)

  release-kept :
      (b : Broker Store) (l : WriteLock) (given : Option String) (t : Moment)
      → b.lock ≡ some l
      → t.instant < l.expires_at
      → given ≢ some l.token
      → (release_lock x es b given t).0.lock ≡ some l
  unfolding release_lock active authorizes
  release-kept b l none t h live other = ground arith
  release-kept b l (some g) t h live other = ground (arith, eq_iff g l.token)

  call-kept :
      (b : Broker Store) (l : WriteLock) (c : LeaseCall) (t : Moment)
      → b.lock ≡ some l
      → t.instant < l.expires_at
      → ¬ Presents c l.token
      → (call b c t).lock ≡ some l
  unfolding call
  call-kept b l (acquires client fresh) t h live other = acquire-kept b l client fresh t h live
  call-kept b l (renews given) t h live other = renew-kept b l given t h live other
  call-kept b l (releases none) t h live other = release-kept b l none t h live (ground arith)
  call-kept b l (releases (some given)) t h live other =
      release-kept b l (some given) t h live (λ e. other (ground (arith, e)))

  unfoldable pub calls : Broker Store → List (LeaseCall × Moment) → Broker Store
  calls b [] = b
  calls b ((c, t) ∷ rest) = calls (call b c t) rest

  pub calls-kept :
      (b : Broker Store) (l : WriteLock) (cs : List (LeaseCall × Moment))
      → b.lock ≡ some l
      → Strangers l cs
      → (calls b cs).lock ≡ some l
  unfolding calls
  calls-kept b l [] h s = h
  calls-kept b l ((c, t) ∷ rest) h s =
      calls-kept (call b c t) l rest (call-kept b l c t h s.0 s.1) s.2

  -- While a lease lasts, and after any number of acquisitions, renewals and releases that come before
  -- its end and do not present its token, a write passes the last gate before the device only with
  -- that token. Other operations, such as a handoff of the port, are not among the calls.
  pub lease_excludes :
      (b : Broker Store) (l : WriteLock) (cs : List (LeaseCall × Moment)) (w : DeviceWrite)
      (now : ℕ)
      → b.lock ≡ some l
      → Strangers l cs
      → now < l.expires_at
      → validate_device_write (calls b cs) w now ≡ ok tt
      → w.lease_token ≡ some l.token
  unfolding admit_context
  lease_excludes b l cs w now h s live passed =
      let (idle, up, epoch, early, (c, found, (same, lives, permitted))) =
        (validate_device_write-ok_iff (calls b cs) w now).0 passed in
      Permitted-token (admit_context (calls b cs) w.actor c.info.primary_eligible w.lease_token now)
        l (calls b cs).lock (calls-kept b l cs h s) live permitted
