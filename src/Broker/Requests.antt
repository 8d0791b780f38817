-- ===== src/Broker/Requests.antt =====
-- src/broker.rs: the parts of a handoff keep the broker's invariant.
use oh_myserial.Common.{ℕ, ◌+◌, from_millis, Option, none, some, String, Result, ok, err, arith}
use oh_myserial.Policy.{WriteLock}
use oh_myserial.Ledger.Schema.{Externals}
use oh_myserial.Ledger.State.{EventStore, Moment}
use oh_myserial.Broker.State.{Broker}
use oh_myserial.Broker.Handoff.{
  enter_handoff, clear_handoff_if, expire_handoff, abort_handoff, take_lease, finish_handoff,
  released_for_handoff,
}
use oh_myserial.Broker.Invariant.{IsValid}
use oh_myserial.Broker.Upkeep.{logged}
use oh_myserial.Broker.Rights.{reshaped}

module _ {S : Type 0} where
  pub enter_handoff-IsValid :
      (b : Broker S) (actor : String) (lease_token : Option String) (duration_ms : ℕ)
      (token : String) (now : ℕ)
      → IsValid b
      → IsValid (enter_handoff b actor lease_token duration_ms token now).0
  unfolding enter_handoff
  enter_handoff-IsValid b actor lease_token duration_ms token now v = ground (
    arith,
    reshaped b b.lock
        (some (record {
          token = token;
          path = b.port.path;
          expires_at = now + from_millis duration_ms;
        }))
        b.stats b.device_queue v,
  )

  pub abort_handoff-IsValid : (b : Broker S) → IsValid b → IsValid (abort_handoff b)
  unfolding abort_handoff
  abort_handoff-IsValid b v = reshaped b b.lock none b.stats b.device_queue v

  pub expire_handoff-IsValid :
      (b : Broker S) (now : ℕ) → IsValid b → IsValid (expire_handoff b now).0
  unfolding expire_handoff
  expire_handoff-IsValid b now v = ground (arith, reshaped b b.lock none b.stats b.device_queue v)

  clear_handoff_if-IsValid :
      (b : Broker S) (token : String) → IsValid b → IsValid (clear_handoff_if b token)
  unfolding clear_handoff_if
  clear_handoff_if-IsValid b token v =
      ground (arith, reshaped b b.lock none b.stats b.device_queue v)

module _ (x : Externals) (es : EventStore) where
  open es use {Store}

  released-IsValid :
      (b : Broker Store) (epoch : ℕ) (o : Option WriteLock) (t : Moment)
      → IsValid b
      → IsValid (released_for_handoff x es b epoch o t)
  unfolding released_for_handoff
  released-IsValid b epoch none t v = v
  released-IsValid b epoch (some l) t v = logged x es b epoch _ t v

  pub finish_handoff-IsValid :
      (b : Broker Store) (actor : String) (duration_ms epoch : ℕ) (path token : String)
      (r : Result (Unit {0}) String) (t : Moment)
      → IsValid b
      → IsValid (finish_handoff x es b actor duration_ms epoch path token r t).0
  unfolding finish_handoff take_lease
  finish_handoff-IsValid b actor duration_ms epoch path token (err e) t v =
      logged x es _ epoch _ t (clear_handoff_if-IsValid b token v)
  finish_handoff-IsValid b actor duration_ms epoch path token (ok u) t v =
      released-IsValid _ epoch b.lock t
        (logged x es _ epoch _ t (reshaped b none _ b.stats b.device_queue v))
