-- ===== src/Broker/Authority.antt =====
-- src/broker.rs: which writes the last gate before the device lets through, against a description
-- that names no test of the code.
use mathlib.Core.Bool.{xor}
use oh_myserial.Common.{
  ℕ, ◌<◌, ◌≡◌, refl, ◌↔◌, Bool, true, false, not, ◌||◌, Option, none, some, String, Result, ok,
  ◌>>◌, ◌>>=◌, guard, arith, eq_iff, leb, ◌==◌, str_eq, is_some,
}
use oh_myserial.Common.Map.{lookup}
use oh_myserial.Policy.{WriteLock, authorizes, active, AdmitDecision, allow, deny, admit_write}
use oh_myserial.Policy.Admission.{Permitted, admit_write-allow_iff}
use oh_myserial.Broker.State.{Broker, ClientSlot, DeviceWrite}
use oh_myserial.Broker.Device.{admit_context, admitted, or_err, lease_intact, validate_device_write}

-- A token that comes with a write is that of an unexpired lease.
abbrev pub TokenLives : Option WriteLock → Option String → ℕ → Type 0
TokenLives lock none now = Unit
TokenLives none (some token) now = ⊥
TokenLives (some l) (some token) now = (now < l.expires_at) × (token ≡ l.token)

-- The client that a write names is the one that was admitted.
abbrev pub SameAuthority : ClientSlot → DeviceWrite → Type 0
SameAuthority c w =
    (c.info.can_write ≡ true)
    × (c.info.name ≡ w.actor)
    × (c.info.primary_eligible ≡ w.primary_eligible)

module _ {S : Type 0} where
  abbrev pub AuthorizedFor : Broker S → DeviceWrite → ℕ → ClientSlot → Type 0
  AuthorizedFor b w now c =
      SameAuthority c w
      × TokenLives b.lock w.lease_token now
      × Permitted (admit_context b w.actor c.info.primary_eligible w.lease_token now) b.lock

  -- What a write needs when it reaches the device.
  abbrev pub Authorized : Broker S → DeviceWrite → ℕ → Type 0
  Authorized b w now =
      (b.handoff ≡ none)
      × (b.port.connected ≡ true)
      × (w.connection_epoch ≡ b.connection_epoch)
      × (now < w.deadline)
      × ((c : ClientSlot) × (lookup w.client_id b.clients ≡ some c) × AuthorizedFor b w now c)

lease_intact_iff :
    (lock : Option WriteLock) (token : Option String) (now : ℕ)
    → (lease_intact lock token now ≡ true) ↔ TokenLives lock token now
unfolding authorizes active
lease_intact_iff lock none now = ground arith
lease_intact_iff none (some t) now = ground arith
lease_intact_iff (some l) (some t) now = ground (arith, eq_iff t l.token)

admitted_iff : (d : AdmitDecision) → (admitted d ≡ ok tt) ↔ (d ≡ allow)
admitted_iff allow = ground arith
admitted_iff (deny r) = ground arith

xor-false_iff : (a b : Bool) → (xor a b ≡ false) ↔ (a ≡ b)
unfolding xor
xor-false_iff true true = ground arith
xor-false_iff true false = ground arith
xor-false_iff false true = ground arith
xor-false_iff false false = ground arith

-- One guard of a `do` block.
pub guard_iff :
    (c : Bool) (e : String) (k : Result (Unit {0}) String)
    → (guard c e >> k ≡ ok tt) ↔ ((c ≡ true) × (k ≡ ok tt))
guard_iff true e k = ground arith
guard_iff false e k = ground arith

module _ {S : Type 0} (b : Broker S) (w : DeviceWrite) (now : ℕ) where
  -- The tests once the client is found.
  client_gate : ClientSlot → Result (Unit {0}) String
  client_gate c =
      guard
        (not (
          not c.info.can_write
          || not (str_eq c.info.name w.actor)
          || xor c.info.primary_eligible w.primary_eligible))
        "originating client authority changed before the device write"
      >> (guard (lease_intact b.lock w.lease_token now)
            "write lease expired, was released, or was replaced"
          >> admitted
              (admit_write (admit_context b w.actor c.info.primary_eligible w.lease_token now)))

  SameAuthority-tests_iff :
      (c : ClientSlot)
      → (not (
            not c.info.can_write
            || not (str_eq c.info.name w.actor)
            || xor c.info.primary_eligible w.primary_eligible)
          ≡ true)
        ↔ SameAuthority c w
  SameAuthority-tests_iff c =
      ground (
        arith,
        eq_iff c.info.name w.actor,
        xor-false_iff c.info.primary_eligible w.primary_eligible,
      )

  admitted-Permitted_iff :
      (c : ClientSlot)
      → (admitted (admit_write (admit_context b w.actor c.info.primary_eligible w.lease_token now))
          ≡ ok tt)
        ↔ Permitted (admit_context b w.actor c.info.primary_eligible w.lease_token now) b.lock
  unfolding admit_context
  admitted-Permitted_iff c = ground (
    arith,
    admitted_iff (admit_write (admit_context b w.actor c.info.primary_eligible w.lease_token now)),
    admit_write-allow_iff (admit_context b w.actor c.info.primary_eligible w.lease_token now),
  )

  client_gate_iff : (c : ClientSlot) → (client_gate c ≡ ok tt) ↔ AuthorizedFor b w now c
  unfolding client_gate
  client_gate_iff c = grind (
    arith,
    guard_iff,
    SameAuthority-tests_iff c,
    lease_intact_iff b.lock w.lease_token now,
    admitted-Permitted_iff c,
  )

  -- The tests before.
  state_gate : Result (Unit {0}) String → Result (Unit {0}) String
  state_gate k =
      guard (not (is_some b.handoff)) "serial handoff is active; write was not attempted"
      >> (guard (not (not b.port.connected || not (w.connection_epoch == b.connection_epoch)))
            "stale connection epoch"
          >> (guard (not (leb w.deadline now)) "write deadline expired before the device write"
              >> k))

  found_gate : Option ClientSlot → Result (Unit {0}) String
  found_gate o = or_err o "originating client disconnected before the device write" >>= client_gate

  validate_device_write-gates :
      validate_device_write b w now ≡ state_gate (found_gate (lookup w.client_id b.clients))
  unfolding validate_device_write state_gate found_gate client_gate
  validate_device_write-gates = refl

  abbrev Ready : Type 0
  Ready =
      (b.handoff ≡ none)
      × (b.port.connected ≡ true)
      × (w.connection_epoch ≡ b.connection_epoch)
      × (now < w.deadline)

  no_handoff_iff : {A : Type 0} (o : Option A) → (not (is_some o) ≡ true) ↔ (o ≡ none)
  no_handoff_iff none = ground arith
  no_handoff_iff (some h) = ground arith

  state_gate_iff : (k : Result (Unit {0}) String) → (state_gate k ≡ ok tt) ↔ (Ready × (k ≡ ok tt))
  unfolding state_gate
  state_gate_iff k = grind (arith, guard_iff, no_handoff_iff b.handoff)

  abbrev Found : Option ClientSlot → Type 0
  Found o = (c : ClientSlot) × (o ≡ some c) × AuthorizedFor b w now c

  found_gate_iff : (o : Option ClientSlot) → (found_gate o ≡ ok tt) ↔ Found o
  unfolding found_gate
  found_gate_iff none = (λ e. ground arith, λ f. ground (arith, f.1))
  found_gate_iff (some c) = grind (arith, client_gate_iff c)

  -- The last gate before the device lets a write through exactly when it is authorized: no handoff,
  -- the connection of its admission, its deadline ahead, its client still registered with the same
  -- name and rights, its lease token still alive, and the write permitted by the lease and the mode.
  pub validate_device_write-ok_iff : (validate_device_write b w now ≡ ok tt) ↔ Authorized b w now
  validate_device_write-ok_iff = rw (validate_device_write-gates) (
      ground (
        arith,
        state_gate_iff (found_gate (lookup w.client_id b.clients)),
        found_gate_iff (lookup w.client_id b.clients),
      ))
