-- ===== src/Broker/Transmit.antt =====
-- src/broker.rs: an admitted write on its way to the device queue.
use oh_myserial.Common.{
  ℕ, ◌+◌, Bool, true, false, List, [], ◌∷◌, ◌++◌, Option, some, String, Result, ok, err,
}
use oh_myserial.Common.Text.{◌^^◌}
use oh_myserial.Common.Map.{update}
use oh_myserial.Fanout.{Bytes, close}
use oh_myserial.Ledger.Schema.{Externals}
use oh_myserial.Ledger.State.{EventStore, Moment}
use oh_myserial.Broker.State.{
  Broker, ClientId, DeviceWrite, WriteError, write_denied, validate_actor_label,
}
use oh_myserial.Broker.Clients.{register_client_with_primary_eligibility, unregister_client}
use oh_myserial.Broker.Device.{count_deny, validate_device_write}
use oh_myserial.Broker.Admit.{TxPlan, admit_tx}

-- How the wait for a place in the device queue ends.
pub data Reserved : Type 0 where
  reserved reserve_expired writer_closed : Reserved

-- How the wait for the serial owner's answer ends.
pub data Answer : Type 0 where
  answered : Result (Unit {0}) WriteError → Answer
  answer_expired answer_dropped : Answer

-- The surroundings of one round of the loop: the clock when it starts and when it checks, how the
-- two waits end, and what other tasks do to the broker during them.
pub record Turn (S : Type 0) : Type 0 where
  pub started : ℕ
  pub while_reserving : Broker S → Broker S
  pub place : Reserved
  pub checked : ℕ
  pub while_answering : Broker S → Broker S
  pub answer : Answer

unfoldable pub answer_result : Answer → Result (Unit {0}) WriteError
answer_result (answered r) = r
answer_result answer_expired =
    err
      (write_denied "write acknowledgement timed out; outcome may be unknown, do not blindly retry")
answer_result answer_dropped =
    err (write_denied "serial writer closed before write acknowledgement")

unfoldable pub frame_write : TxPlan → ClientId → Option String → Bool → Bytes → ℕ → DeviceWrite
frame_write plan id lease_token wait frame started = record {
  bytes = frame;
  client_id = id;
  connection_epoch = plan.connection_epoch;
  lease_token = lease_token;
  primary_eligible = plan.primary_eligible;
  deadline = started + plan.write_timeout;
  actor = plan.name;
  completion = wait;
}

module _ {S : Type 0} where
  -- `permit.send(write)`.
  unfoldable pub enqueue_write : Broker S → DeviceWrite → Broker S
  enqueue_write b w = record b { device_queue = b.device_queue ++ w ∷ [] }

  unfoldable pub await_answer : Broker S → Bool → Turn S → Broker S × Result (Unit {0}) WriteError
  unfolding answer_result
  await_answer b false turn = (b, ok tt)
  await_answer b true turn = (turn.while_answering b, answer_result turn.answer)

  -- The second check, once a place in the queue is there.
  unfoldable pub send_checked :
      Broker S
      → DeviceWrite
      → Turn S
      → Result (Unit {0}) String
      → Broker S × Result (Unit {0}) WriteError
  unfolding await_answer
  send_checked b w turn (err reason) =
      (count_deny b, err (write_denied ("write was not queued: " ^^ reason)))
  send_checked b w turn (ok u) = await_answer (enqueue_write b w) w.completion turn

  unfoldable pub send_placed :
      Broker S → DeviceWrite → Turn S → Reserved → Broker S × Result (Unit {0}) WriteError
  unfolding send_checked
  send_placed b w turn reserved = send_checked b w turn (validate_device_write b w turn.checked)
  send_placed b w turn reserve_expired =
      (b, err (write_denied "device write queue deadline expired; write was not queued"))
  send_placed b w turn writer_closed =
      (b, err (write_denied "serial writer closed; write was not queued"))

  unfoldable pub send_frame :
      Broker S → DeviceWrite → Turn S → Broker S × Result (Unit {0}) WriteError
  unfolding send_placed
  send_frame b w turn = send_placed (turn.while_reserving b) w turn turn.place

  unfoldable pub send_rest :
      Broker S × Result (Unit {0}) WriteError
      → (Broker S → Broker S × Result (Unit {0}) WriteError)
      → Broker S × Result (Unit {0}) WriteError
  send_rest (b, ok u) k = k b
  send_rest (b, err e) k = (b, err e)

  -- The loop, its round number `i` counted from 0.
  unfoldable pub send_frames :
      Broker S
      → TxPlan
      → ClientId
      → Option String
      → Bool
      → List Bytes
      → (ℕ → Turn S)
      → ℕ
      → Broker S × Result (Unit {0}) WriteError
  unfolding send_rest
  send_frames b plan id lease_token wait [] turns i = (b, ok tt)
  send_frames b plan id lease_token wait (frame ∷ frames) turns i =
      send_rest
        (send_frame b (frame_write plan id lease_token wait frame (turns i).started) (turns i))
        (λ b'. send_frames b' plan id lease_token wait frames turns (i + 1))

  unfoldable pub run_plan :
      ClientId
      → Option String
      → Bool
      → (ℕ → Turn S)
      → Broker S × Result TxPlan String
      → Broker S × Result (Unit {0}) WriteError
  run_plan id lease_token wait turns (b, err reason) = (b, err (write_denied reason))
  run_plan id lease_token wait turns (b, ok plan) =
      send_frames b plan id lease_token wait plan.frames turns 0

  unfoldable pub client_tx_inner :
      Broker S
      → ClientId
      → Bytes
      → Option String
      → Bool
      → Bool
      → ℕ
      → (ℕ → Turn S)
      → Broker S × Result (Unit {0}) WriteError
  unfolding run_plan
  client_tx_inner b id [] lease_token atomic wait now turns = (b, ok tt)
  client_tx_inner b id (d ∷ bytes) lease_token atomic wait now turns =
      run_plan id lease_token wait turns (admit_tx b id (d ∷ bytes) lease_token atomic now)

  unfoldable pub client_tx_with_lease :
      Broker S
      → ClientId
      → Bytes
      → Option String
      → ℕ
      → (ℕ → Turn S)
      → Broker S × Result (Unit {0}) WriteError
  client_tx_with_lease b id bytes lease_token now turns =
      client_tx_inner b id bytes lease_token false false now turns

  unfoldable pub client_tx_atomic_with_lease :
      Broker S
      → ClientId
      → Bytes
      → Option String
      → ℕ
      → (ℕ → Turn S)
      → Broker S × Result (Unit {0}) WriteError
  client_tx_atomic_with_lease b id bytes lease_token now turns =
      client_tx_inner b id bytes lease_token true false now turns

  unfoldable pub client_tx_atomic_confirmed_with_lease :
      Broker S
      → ClientId
      → Bytes
      → Option String
      → ℕ
      → (ℕ → Turn S)
      → Broker S × Result (Unit {0}) WriteError
  client_tx_atomic_confirmed_with_lease b id bytes lease_token now turns =
      client_tx_inner b id bytes lease_token true true now turns

module _ (x : Externals) (es : EventStore) where
  open es use {Store}

  api_labelled :
      Broker Store
      → ClientId
      → String
      → Bytes
      → Option String
      → Moment
      → ℕ
      → (ℕ → Turn Store)
      → Moment
      → Result (Unit {0}) String
      → Broker Store × Result (Unit {0}) WriteError
  api_labelled b id as_client bytes lease_token joined now turns left (err e) =
      (b, err (write_denied e))
  api_labelled b id as_client bytes lease_token joined now turns left (ok u) =
      let registered =
        register_client_with_primary_eligibility x es b id as_client "http" false true (some 1)
          false joined in
      let silent = record registered {
        clients = update id (λ s. record s { fanout = close s.fanout }) registered.clients;
      } in
      let (b', r) = client_tx_atomic_confirmed_with_lease silent id bytes lease_token now turns in
      (unregister_client x es b' id left, r)

  -- A client is there for one request: its receiver is dropped at once, the registration at the end.
  unfoldable pub api_write_with_lease :
      Broker Store
      → ClientId
      → String
      → Bytes
      → Option String
      → Moment
      → ℕ
      → (ℕ → Turn Store)
      → Moment
      → Broker Store × Result (Unit {0}) WriteError
  unfolding api_labelled
  api_write_with_lease b id as_client bytes lease_token joined now turns left =
      api_labelled b id as_client bytes lease_token joined now turns left
        (validate_actor_label as_client)
