-- ===== src/Broker/Handoff.antt =====
-- src/broker.rs: the requests to the serial owner: the handoff of the port to an external tool, the
-- control lines and the line settings. A request is checked under the lock, sent to the owner, and
-- finished under the lock; what other tasks do meanwhile is an argument.
use oh_myserial.Common.{
  ℕ, ◌+◌, Bool, true, false, not, ◌&&◌, ◌||◌, Option, none, some, String, Result, ok, err, ◌>>◌,
  guard, if◌then◌else◌, leb, ltb, str_eq, is_some, is_some_and, from_millis,
}
use oh_myserial.Common.Text.{◌^^◌, show, byte_len, is_empty}
use oh_myserial.Policy.{WriteLock}
use oh_myserial.Ledger.Schema.{Externals}
use oh_myserial.Ledger.State.{EventStore, Moment}
use oh_myserial.Broker.State.{Broker, HandoffState, validate_actor_label}
use oh_myserial.Broker.Events.{control_event, log_event}
use oh_myserial.Broker.Device.{holds_lease}

pub record HandoffView : Type 0 where
  pub path : String
  pub expires_ms : ℕ
  pub handoff_token : String

-- How a request to the serial owner ends.
pub data OwnerReply : Type 0 where
  replied : Result (Unit {0}) String → OwnerReply
  reply_dropped reply_expired owner_closed send_expired : OwnerReply

-- The texts of the four failures, which the requests word differently.
pub record ReplyTexts : Type 0 where
  pub dropped : String
  pub timed_out : String
  pub closed : String
  pub queue_expired : String

abbrev pub begin_texts : ReplyTexts
begin_texts = record {
  dropped = "serial owner dropped the handoff acknowledgement";
  timed_out = "serial handoff acknowledgement timed out";
  closed = "serial owner control channel is closed";
  queue_expired = "serial handoff queue deadline expired";
}

unfoldable pub reply_result : ReplyTexts → OwnerReply → Result (Unit {0}) String
reply_result texts (replied r) = r
reply_result texts reply_dropped = err texts.dropped
reply_result texts reply_expired = err texts.timed_out
reply_result texts owner_closed = err texts.closed
reply_result texts send_expired = err texts.queue_expired

-- The public TTL starts when the owner has acknowledged.
unfoldable pub restart_ttl : Option HandoffState → ℕ → Option HandoffState
restart_ttl none expires_at = none
restart_ttl (some h) expires_at = some (record h { expires_at = expires_at })

module _ {S : Type 0} where
  unfoldable pub clear_handoff_if : Broker S → String → Broker S
  clear_handoff_if b token =
      if is_some_and b.handoff (λ h. str_eq h.token token) then record b { handoff = none } else b

  unfoldable pub expire_handoff : Broker S → ℕ → Broker S × Bool
  expire_handoff b now =
      if is_some_and b.handoff (λ h. leb h.expires_at now)
      then (record b { handoff = none }, true)
      else (b, false)

  unfoldable pub abort_handoff : Broker S → Broker S
  abort_handoff b = record b { handoff = none }

  -- The lease check of the three requests that need one.
  unfoldable pub check_lease :
      Broker S → Option String → ℕ → String → String → Result (Unit {0}) String
  check_lease b none now required replaced = err required
  check_lease b (some token) now required replaced =
      guard (holds_lease b.lock (some token) now) replaced

  -- The guards of `begin_handoff`, up to the point where it takes the port.
  unfoldable pub check_handoff :
      Broker S → String → Option String → ℕ → ℕ → Result (Unit {0}) String
  unfolding check_lease
  check_handoff b actor lease_token duration_ms now = do
    validate_actor_label actor
    guard (leb 1 duration_ms && leb duration_ms 600000)
        "handoff duration_ms must be between 1 and 600000"
    guard (not (is_some b.handoff)) "a serial handoff is already active"
    guard b.port.connected "serial port is disconnected; handoff was not queued"
    check_lease b lease_token now "handoff requires an active write lease token"
        "handoff lease expired, was released, or was replaced"
    guard b.owner_attached "serial owner control channel is unavailable"

  -- The critical section that takes the port, with the new handoff's token.
  unfoldable pub enter_handoff :
      Broker S → String → Option String → ℕ → String → ℕ → Broker S × Result String String
  enter_handoff b actor lease_token duration_ms token now =
      elim (check_handoff b actor lease_token duration_ms now) [
        | err e ↦ (b, err e)
        | ok u ↦ (
          record b {
            handoff = some (record {
              token = token;
              path = b.port.path;
              expires_at = now + from_millis duration_ms;
            });
          },
          ok b.port.path,
        )
      ]

  unfoldable pub take_lease : Broker S → ℕ → ℕ → Broker S
  unfolding restart_ttl
  take_lease b duration_ms now = record b {
    handoff = restart_ttl b.handoff (now + from_millis duration_ms);
    lock = none;
  }

module _ (x : Externals) (es : EventStore) where
  open es use {Store}

  unfoldable pub released_for_handoff : Broker Store → ℕ → Option WriteLock → Moment → Broker Store
  released_for_handoff b epoch none t = b
  released_for_handoff b epoch (some lock) t =
      log_event x es b epoch (control_event (some lock.owner) "lease_released_for_handoff" none) t

  -- What follows the owner's reply, in the state `b` that it finds.
  unfoldable pub finish_handoff :
      Broker Store
      → String
      → ℕ
      → ℕ
      → String
      → String
      → Result (Unit {0}) String
      → Moment
      → Broker Store × Result HandoffView String
  unfolding released_for_handoff
  finish_handoff b actor duration_ms epoch path token (err error) t = (
    log_event x es (clear_handoff_if b token) epoch
        (control_event (some actor) "handoff_rejected" (some error)) t,
    err error,
  )
  finish_handoff b actor duration_ms epoch path token (ok u) t = (
    released_for_handoff
        (log_event x es (take_lease b duration_ms t.instant) epoch
          (control_event (some actor) "handoff_started" (some ("duration_ms=" ^^ show duration_ms)))
          t)
        epoch b.lock t,
    ok (record { path = path; expires_ms = duration_ms; handoff_token = token }),
  )

  unfoldable pub begin_entered :
      Broker Store × Result String String
      → String
      → ℕ
      → String
      → (Broker Store → Broker Store)
      → OwnerReply
      → Moment
      → Broker Store × Result HandoffView String
  begin_entered (b, err e) actor duration_ms token others reply t = (b, err e)
  begin_entered (b, ok path) actor duration_ms token others reply t =
      finish_handoff (others b) actor duration_ms b.connection_epoch path token
        (reply_result begin_texts reply) t

  unfoldable pub begin_handoff :
      Broker Store
      → String
      → Option String
      → ℕ
      → String
      → ℕ
      → (Broker Store → Broker Store)
      → OwnerReply
      → Moment
      → Broker Store × Result HandoffView String
  unfolding begin_entered
  begin_handoff b actor lease_token duration_ms token now others reply t =
      begin_entered (enter_handoff b actor lease_token duration_ms token now) actor duration_ms
        token others reply t

  unfoldable pub resume_replied :
      Broker Store → ℕ → Result (Unit {0}) String → Moment → Broker Store × Result (Unit {0}) String
  resume_replied b epoch (err e) t = (b, err e)
  resume_replied b epoch (ok u) t =
      (log_event x es (abort_handoff b) epoch (control_event none "handoff_resumed" none) t, ok tt)

  unfoldable pub resume_active :
      Broker Store
      → Option HandoffState
      → String
      → ℕ
      → (Broker Store → Broker Store)
      → OwnerReply
      → Moment
      → Broker Store × Result (Unit {0}) String
  unfolding resume_replied
  resume_active b none handoff_token now others reply t = (b, err "no active serial handoff")
  resume_active b (some h) handoff_token now others reply t =
      if leb h.expires_at now
      then (record b { handoff = none }, err "handoff token expired")
      else if not (str_eq h.token handoff_token)
      then (b, err "invalid handoff token")
      else if not b.owner_attached
      then (b, err "serial owner control channel is unavailable")
      else resume_replied (others b) b.connection_epoch
          (reply_result
            (record {
              dropped = "serial owner dropped the resume acknowledgement";
              timed_out = "serial handoff resume timed out";
              closed = "serial owner control channel is closed";
              queue_expired = "serial handoff resume queue deadline expired";
            })
            reply)
          t

  unfoldable pub resume_handoff :
      Broker Store
      → String
      → ℕ
      → (Broker Store → Broker Store)
      → OwnerReply
      → Moment
      → Broker Store × Result (Unit {0}) String
  unfolding resume_active
  resume_handoff b handoff_token now others reply t =
      if is_empty handoff_token || ltb 128 (byte_len handoff_token)
      then (b, err "invalid handoff token")
      else resume_active b b.handoff handoff_token now others reply t
