-- ===== src/Examples/Handoffs.antt =====
-- A handoff of the port, and a control line.
use oh_myserial.Common.{
  refl, String, arith, ℕ, ◌≢◌, eq_iff, is_ok, none, false, ◌≡◌, ◌≤◌, ◌↔◌, true, some, ok,
}
use oh_myserial.Broker.State.{Broker, dtr, validate_actor_label, validate_control}
use oh_myserial.Broker.Handoff.{check_handoff, begin_handoff, resume_handoff, replied}
use oh_myserial.Broker.Control.{check_control}
use oh_myserial.Broker.Ownership.{MayAsk, check_handoff-ok_iff, check_control-ok_iff}
use oh_myserial.Broker.Passing.{Begun, begin_handoff-Begun, resume_handoff_keeps}
use oh_myserial.Examples.Fixtures.{externals, counting_store, noon, desk}

check_handoff-ok_iff_example : (check_handoff desk "alice" (some "t1") 5000 2000 ≡ ok tt) ↔ (
    (validate_actor_label "alice" ≡ ok tt)
    × (1 ≤ 5000)
    × (5000 ≤ 600000)
    × MayAsk desk (some "t1") 2000)
check_handoff-ok_iff_example = check_handoff-ok_iff desk "alice" (some "t1") 5000 2000

check_control-ok_iff_example : (check_control desk "alice" (some "t1") (dtr true) 2000 ≡ ok tt) ↔ (
    (validate_actor_label "alice" ≡ ok tt)
    × (validate_control (dtr true) ≡ ok tt)
    × MayAsk desk (some "t1") 2000)
check_control-ok_iff_example = check_control-ok_iff desk "alice" (some "t1") (dtr true) 2000

-- The owner acknowledges.
begin_handoff-Begun_example :
    Begun externals counting_store "alice" 5000 "h1" noon desk
      (some "t1")
      2000
      (λ b. b)
      (replied (ok tt))
      (begin_handoff externals counting_store desk "alice"
        (some "t1")
        5000
        "h1"
        2000
        (λ b. b)
        (replied (ok tt))
        noon)
begin_handoff-Begun_example =
    begin_handoff-Begun externals counting_store "alice" 5000 "h1" noon desk (some "t1") 2000
      (λ b. b) (replied (ok tt))

abbrev lent : Broker ℕ
lent = record desk {
  lock = none;
  handoff = some (record { token = "h1"; path = "/dev/ttyUSB0"; expires_at = 9000 });
}

abbrev guess : String
guess = "guess"

guess_differs : guess ≢ "h1"
guess_differs e = ground (arith, eq_iff "guess" "h1", e)

resume_handoff_keeps_example :
    ((resume_handoff externals counting_store lent "guess" 2000 (λ b. b) (replied (ok tt)) noon).0
      ≡ lent)
    × (is_ok
          (resume_handoff externals counting_store lent "guess" 2000
            (λ b. b)
            (replied (ok tt))
            noon).1
        ≡ false)
resume_handoff_keeps_example =
    resume_handoff_keeps externals counting_store lent
      (record { token = "h1"; path = "/dev/ttyUSB0"; expires_at = 9000 }) "guess" 2000 (λ b. b)
      (replied (ok tt)) noon refl (ground arith) guess_differs
