-- ===== src/Broker/Queueing.antt =====
-- src/broker.rs: which writes reach the device queue, and in which order.
use mathlib.Core.List.{append_assoc, append-nil}
use oh_myserial.Common.{
  ℕ, ◌+◌, ◌≡◌, refl, sym, ap, subst, ◌∙◌, ◌⊎◌, inl, inr, false, List, [], ◌∷◌, ◌++◌, Option, String,
  Result, ok, err, arith, is_ok,
}
use oh_myserial.Fanout.{Bytes}
use oh_myserial.Broker.State.{Broker, ClientId, DeviceWrite, WriteError}
use oh_myserial.Broker.Device.{validate_device_write, count_deny}
use oh_myserial.Broker.Authority.{Authorized, validate_device_write-ok_iff}
use oh_myserial.Broker.Admit.{TxPlan}
use oh_myserial.Broker.Transmit.{
  Turn, Reserved, reserved, reserve_expired, writer_closed, frame_write, enqueue_write,
  await_answer, send_checked, send_placed, send_frame, send_rest, send_frames,
}

module _ {S : Type 0} where
  -- A round of the loop queues the write, authorized in the state that it finds, or queues nothing
  -- and fails.
  pub data Round (b : Broker S) (w : DeviceWrite) (turn : Turn S)
      (r : Broker S × Result (Unit {0}) WriteError) : Type 0 where
    placed :
        Authorized (turn.while_reserving b) w turn.checked
        → r ≡ await_answer (enqueue_write (turn.while_reserving b) w) w.completion turn
        → Round b w turn r
    rejected :
        (e : WriteError)
        → r.1 ≡ err e
        → r.0.device_queue ≡ (turn.while_reserving b).device_queue
        → Round b w turn r

  checked-Round :
      (b : Broker S) (w : DeviceWrite) (turn : Turn S) (v : Result (Unit {0}) String)
      → validate_device_write (turn.while_reserving b) w turn.checked ≡ v
      → Round b w turn (send_checked (turn.while_reserving b) w turn v)
  unfolding send_checked count_deny
  checked-Round b w turn (ok u) h =
      placed ((validate_device_write-ok_iff (turn.while_reserving b) w turn.checked).0 h) refl
  checked-Round b w turn (err reason) h = rejected _ refl refl

  placed-Round :
      (b : Broker S) (w : DeviceWrite) (turn : Turn S) (place : Reserved)
      → Round b w turn (send_placed (turn.while_reserving b) w turn place)
  unfolding send_placed
  placed-Round b w turn reserved = checked-Round b w turn _ refl
  placed-Round b w turn reserve_expired = rejected _ refl refl
  placed-Round b w turn writer_closed = rejected _ refl refl

  -- Whatever other tasks do while a round waits for its place in the queue, the round queues only
  -- a write that is authorized in the state it then finds, and otherwise fails and queues nothing.
  pub send_frame-Round :
      (b : Broker S) (w : DeviceWrite) (turn : Turn S) → Round b w turn (send_frame b w turn)
  unfolding send_frame
  send_frame-Round b w turn = placed-Round b w turn turn.place

module _ {S : Type 0} (plan : TxPlan) (id : ClientId) (lease_token : Option String)
    (turns : ℕ → Turn S) where
  -- The writes of the frames, from round `i` on.
  unfoldable pub writes : List Bytes → ℕ → List DeviceWrite
  writes [] i = []
  writes (frame ∷ frames) i =
      frame_write plan id lease_token false frame (turns i).started ∷ writes frames (i + 1)

  -- No other task changes the broker while a round waits for its place.
  abbrev pub Quiet : Type 0
  Quiet = (i : ℕ) (b : Broker S) → (turns i).while_reserving b ≡ b

  -- A first part of the frames is queued behind what was there, in order; on success all are.
  pub record Queued (b : Broker S) (frames : List Bytes) (i : ℕ)
      (r : Broker S × Result (Unit {0}) WriteError) : Type 0 where
    pub sent : List Bytes
    pub left : List Bytes
    pub split : sent ++ left ≡ frames
    pub queue : r.0.device_queue ≡ b.device_queue ++ writes sent i
    pub complete : (left ≡ []) ⊎ (is_ok r.1 ≡ false)

  abbrev rest_of : Broker S → List Bytes → ℕ → Broker S × Result (Unit {0}) WriteError
  rest_of b frames i = send_frames b plan id lease_token false frames turns i

  none_sent :
      (b b' : Broker S) (frames : List Bytes) (i : ℕ) (e : WriteError)
      → b'.device_queue ≡ b.device_queue
      → Queued b frames i (b', err e)
  unfolding writes
  none_sent b b' frames i e h = record {
    sent = [];
    left = frames;
    split = refl;
    queue = h ∙ sym (append-nil b.device_queue);
    complete = inr refl;
  }

  one_sent :
      (b : Broker S) (frame : Bytes) (frames : List Bytes) (i : ℕ)
      (r : Broker S × Result (Unit {0}) WriteError)
      → Queued
          (enqueue_write b (frame_write plan id lease_token false frame (turns i).started))
          frames
          (i + 1)
          r
      → Queued b (frame ∷ frames) i r
  unfolding writes enqueue_write
  one_sent b frame frames i r q = record {
    sent = frame ∷ q.sent;
    left = q.left;
    split = ap (λ l. frame ∷ l) q.split;
    queue = q.queue ∙ append_assoc b.device_queue _ _;
    complete = q.complete;
  }

  Round-then :
      (b : Broker S) (frame : Bytes) (frames : List Bytes) (i : ℕ)
      (r : Broker S × Result (Unit {0}) WriteError)
      → Quiet
      → ((b' : Broker S) → Queued b' frames (i + 1) (rest_of b' frames (i + 1)))
      → Round b (frame_write plan id lease_token false frame (turns i).started) (turns i) r
      → Queued b (frame ∷ frames) i (send_rest r (λ b'. rest_of b' frames (i + 1)))
  unfolding send_rest await_answer frame_write
  Round-then b frame frames i r quiet later (placed ok_write e) =
      subst (λ z. Queued b (frame ∷ frames) i (send_rest z (λ b'. rest_of b' frames (i + 1))))
        (sym (
          e
          ∙ ap
              (λ z. (
                enqueue_write z (frame_write plan id lease_token false frame (turns i).started),
                ok tt,
              ))
              (quiet i b)))
        (one_sent b frame frames i _ (later _))
  Round-then b frame frames i (b', ok u) quiet later (rejected e fails kept) = ground (arith, fails)
  Round-then b frame frames i (b', err e') quiet later (rejected e fails kept) =
      none_sent b b' (frame ∷ frames) i e' (kept ∙ ap (λ z. z.device_queue) (quiet i b))

  -- Without interference, an unconfirmed write queues a first part of its frames behind the writes
  -- already queued, in order and one each; when it succeeds it has queued them all.
  pub send_frames-Queued :
      (b : Broker S) (frames : List Bytes) (i : ℕ) → Quiet → Queued b frames i (rest_of b frames i)
  unfolding send_frames writes
  send_frames-Queued b [] i quiet = record {
    sent = [];
    left = [];
    split = refl;
    queue = sym (append-nil b.device_queue);
    complete = inl refl;
  }
  send_frames-Queued b (frame ∷ frames) i quiet =
      Round-then b frame frames i _ quiet (λ b'. send_frames-Queued b' frames (i + 1) quiet)
        (send_frame-Round b (frame_write plan id lease_token false frame (turns i).started)
          (turns i))
