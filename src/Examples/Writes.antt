-- ===== src/Examples/Writes.antt =====
-- Writes, leases and status changes of a broker with one client.
use oh_myserial.Common.{
  ℕ, ◌+◌, ◌≡◌, ◌≢◌, ◌↔◌, refl, true, false, List, [], ◌∷◌, some, ok, arith, eq_iff, is_ok,
}
use mathlib.Core.Bool.{xor}
use oh_myserial.Common.Map.{lookup}
use oh_myserial.Common.Text.{is_blank, has_control}
use oh_myserial.Policy.{active, authorizes, lock_ttl, admit_write, allow}
use oh_myserial.Policy.Admission.{Permitted, admit_write-allow_iff}
use oh_myserial.Ledger.State.{Moment}
use oh_myserial.Broker.State.{validate_actor_label}
use oh_myserial.Broker.Events.{record_event, set_port_status}
use oh_myserial.Broker.Device.{validate_device_write, admit_context}
use oh_myserial.Broker.Authority.{Authorized, validate_device_write-ok_iff}
use oh_myserial.Broker.Epochs.{follow, stale_write-rejected}
use oh_myserial.Broker.Exclusion.{
  LeaseCall, call, acquires, releases, Strangers, calls, lease_excludes,
}
use oh_myserial.Broker.Granting.{Free, acquire_lock-grants}
use oh_myserial.Broker.Leases.{release_lock, acquire_lock}
use oh_myserial.Broker.Admit.{purge, TxPlan}
use oh_myserial.Broker.Transmit.{
  enqueue_write, Turn, reserved, answer_expired, send_frame, send_frames, frame_write,
}
use oh_myserial.Broker.Queueing.{Round, send_frame-Round, Queued, Quiet, send_frames-Queued}
use oh_myserial.Examples.Fixtures.{
  externals, counting_store, noon, port_up, port_down, lease, desk, unplugged, hello,
}

hello_passes : validate_device_write desk hello 2000 ≡ ok tt
unfolding validate_device_write lookup xor authorizes admit_write admit_context
hello_passes = refl

validate_device_write-ok_iff_example :
    (validate_device_write desk hello 2000 ≡ ok tt) ↔ Authorized desk hello 2000
validate_device_write-ok_iff_example = validate_device_write-ok_iff desk hello 2000

admit_write-allow_iff_example :
    (admit_write (admit_context desk "alice" true (some "t1") 2000) ≡ allow)
    ↔ Permitted (admit_context desk "alice" true (some "t1") 2000) (some lease)
unfolding admit_context
admit_write-allow_iff_example =
    admit_write-allow_iff (admit_context desk "alice" true (some "t1") 2000)

-- Bob tries to take the lease, then guesses a token.
abbrev bob_calls : List (LeaseCall × Moment)
bob_calls = (acquires "bob" "t2", noon) ∷ (releases (some "guess"), noon) ∷ []

bob-Strangers : Strangers lease bob_calls
bob-Strangers =
    (ground arith, λ p. p, (ground arith, λ e. ground (arith, eq_iff "guess" "t1", e), tt))

bob_calls-passes :
    validate_device_write (calls externals counting_store desk bob_calls) hello 2000 ≡ ok tt
unfolding validate_device_write calls lookup xor authorizes admit_write admit_context call
    acquire_lock release_lock record_event active purge validate_actor_label is_blank has_control
bob_calls-passes = refl

lease_excludes_example : hello.lease_token ≡ some lease.token
lease_excludes_example =
    lease_excludes externals counting_store desk lease bob_calls hello 2000 refl bob-Strangers
      (ground arith) bob_calls-passes

stale_write-rejected_example :
    validate_device_write
      (follow externals counting_store
        (set_port_status externals counting_store unplugged port_up noon)
        ((port_down, noon) ∷ (port_up, noon) ∷ []))
      hello
      2000
    ≢ ok tt
stale_write-rejected_example =
    stale_write-rejected externals counting_store unplugged port_up noon
      ((port_down, noon) ∷ (port_up, noon) ∷ []) hello 2000 refl refl (ground arith) (ground arith)

acquire_lock-grants_example :
    (is_ok (acquire_lock externals counting_store unplugged "bob" "t2" noon).1 ≡ true) ↔ (
      Free externals counting_store unplugged "bob" 1000
      × ((acquire_lock externals counting_store unplugged "bob" "t2" noon).0.lock
          ≡ some (record {
            owner = "bob";
            token = "t2";
            expires_at = 1000 + lock_ttl unplugged.policy;
          })))
acquire_lock-grants_example = acquire_lock-grants externals counting_store unplugged "bob" "t2" noon

abbrev calm : Turn ℕ
calm = record {
  started = 2000;
  while_reserving = λ b. b;
  place = reserved;
  checked = 2500;
  while_answering = λ b. b;
  answer = answer_expired;
}

abbrev two_lines : TxPlan
two_lines = record {
  name = "alice";
  primary_eligible = true;
  frames = (104 ∷ 10 ∷ []) ∷ (105 ∷ 10 ∷ []) ∷ [];
  connection_epoch = 1;
  write_timeout = 1000;
}

send_frame-Round_example : Round desk hello calm (send_frame desk hello calm)
send_frame-Round_example = send_frame-Round desk hello calm

calm-Quiet : Quiet two_lines "a" (some "t1") (λ i. calm)
calm-Quiet i b = refl

send_frames-Queued_example :
    Queued two_lines "a"
      (some "t1")
      (λ i. calm)
      desk
      two_lines.frames
      0
      (send_frames desk two_lines "a" (some "t1") false two_lines.frames (λ i. calm) 0)
send_frames-Queued_example =
    send_frames-Queued two_lines "a" (some "t1") (λ i. calm) desk two_lines.frames 0 calm-Quiet

-- Both lines are queued.
two_lines_queued :
    is_ok (send_frames desk two_lines "a" (some "t1") false two_lines.frames (λ i. calm) 0).1 ≡ true
unfolding send_frames send_frame validate_device_write frame_write lookup xor authorizes admit_write
    admit_context enqueue_write
two_lines_queued = refl
