-- ===== src/Broker/Ownership.antt =====
-- src/broker.rs: who may ask the serial owner for something, and what a handoff of the port does.
use oh_myserial.Common.{
  ℕ, ◌≤◌, ◌<◌, ◌≡◌, ◌↔◌, Bool, true, false, not, ◌&&◌, Option, none, some, String, Result, ok, err,
  ◌>>◌, guard, arith, eq_iff, leb, is_some,
}
use oh_myserial.Policy.{WriteLock, active, authorizes}
use oh_myserial.Broker.State.{Broker, ControlCommand, validate_control, validate_actor_label}
use oh_myserial.Broker.Device.{holds_lease}
use oh_myserial.Broker.Handoff.{check_lease, check_handoff}
use oh_myserial.Broker.Control.{check_control}

-- The caller holds the active lease.
abbrev pub HoldsLease : Option WriteLock → Option String → ℕ → Type 0
HoldsLease none token now = ⊥
HoldsLease (some l) token now = (now < l.expires_at) × (token ≡ some l.token)

module _ {S : Type 0} (b : Broker S) (token : Option String) (now : ℕ) where
  -- What the serial owner is asked for only with.
  abbrev pub MayAsk : Type 0
  MayAsk =
      (b.handoff ≡ none)
      × (b.port.connected ≡ true)
      × HoldsLease b.lock token now
      × (b.owner_attached ≡ true)

guard-ok_iff : (c : Bool) (e : String) → (guard c e ≡ ok tt) ↔ (c ≡ true)
guard-ok_iff true e = ground arith
guard-ok_iff false e = ground arith

-- Two checks in a row.
both_iff : (m k : Result (Unit {0}) String) → (m >> k ≡ ok tt) ↔ ((m ≡ ok tt) × (k ≡ ok tt))
both_iff (ok u) k = ground arith
both_iff (err e) k = ground arith

not_some_iff {ℓ} : {A : Type ℓ} (o : Option A) → (not (is_some o) ≡ true) ↔ (o ≡ none)
not_some_iff none = ground arith
not_some_iff (some a) = ground arith

range_iff : (n lo hi : ℕ) → ((leb lo n && leb n hi) ≡ true) ↔ ((lo ≤ n) × (n ≤ hi))
range_iff n lo hi = ground arith

holds_lease_iff :
    (lock : Option WriteLock) (t : String) (now : ℕ)
    → (holds_lease lock (some t) now ≡ true) ↔ HoldsLease lock (some t) now
unfolding authorizes active
holds_lease_iff none t now = ground arith
holds_lease_iff (some l) t now = ground (arith, eq_iff t l.token)

no_token_lem : (lock : Option WriteLock) (now : ℕ) → ¬ HoldsLease lock none now
no_token_lem none now h = h
no_token_lem (some l) now h = ground (arith, h.1)

module _ {S : Type 0} where
  check_lease_iff :
      (b : Broker S) (token : Option String) (now : ℕ) (required replaced : String)
      → (check_lease b token now required replaced ≡ ok tt) ↔ HoldsLease b.lock token now
  unfolding check_lease
  check_lease_iff b none now required replaced = ground (arith, no_token_lem b.lock now)
  check_lease_iff b (some t) now required replaced =
      ground (
        arith,
        guard-ok_iff (holds_lease b.lock (some t) now) replaced,
        holds_lease_iff b.lock t now,
      )

  -- The serial owner is asked for a handoff exactly under a valid label and a duration of at most
  -- ten minutes, without another handoff, on a connected port, with the token of the active lease,
  -- and while the owner is there.
  pub check_handoff-ok_iff :
      (b : Broker S) (actor : String) (token : Option String) (duration_ms now : ℕ)
      → (check_handoff b actor token duration_ms now ≡ ok tt) ↔ (
          (validate_actor_label actor ≡ ok tt)
          × (1 ≤ duration_ms)
          × (duration_ms ≤ 600000)
          × MayAsk b token now)
  unfolding check_handoff
  check_handoff-ok_iff b actor token duration_ms now = grind (
    arith,
    both_iff,
    guard-ok_iff,
    not_some_iff b.handoff,
    range_iff duration_ms 1 600000,
    check_lease_iff b token now "handoff requires an active write lease token"
        "handoff lease expired, was released, or was replaced",
  )

  -- The checks of serial_control before it asks the serial owner pass exactly under a valid label and
  -- a valid command, without a handoff, on a connected port, with the token of the active lease, and
  -- while the owner is there. What the owner then does or answers is not part of it.
  pub check_control-ok_iff :
      (b : Broker S) (actor : String) (token : Option String) (command : ControlCommand) (now : ℕ)
      → (check_control b actor token command now ≡ ok tt) ↔ (
          (validate_actor_label actor ≡ ok tt)
          × (validate_control command ≡ ok tt)
          × MayAsk b token now)
  unfolding check_control
  check_control-ok_iff b actor token command now = grind (
    arith,
    both_iff,
    guard-ok_iff,
    not_some_iff b.handoff,
    check_lease_iff b token now "control requires an active write lease token"
        "control lease expired, was released, or was replaced",
  )
