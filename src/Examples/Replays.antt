-- ===== src/Examples/Replays.antt =====
-- A capture of two events, replayed.
use oh_myserial.Common.{
  ℕ, ◌≤◌, ◌≡◌, ◌↔◌, refl, true, List, [], ◌∷◌, none, some, ok, arith, is_ok, length, take, u64_max,
}
use oh_myserial.Ledger.Schema.{EventEnvelope, validate, validate_payload, is_bad_label}
use oh_myserial.Common.Text.{is_empty, has_control}
use oh_myserial.Replay.{
  ReplayMode, ReplaySession, ReplayOptions, Speeds, validated, check_next, check_rest,
  from_validated_events, play, manual_cursor,
}
use oh_myserial.Replay.Capture.{IsCapture, from_validated_events-ok_iff}
use oh_myserial.Replay.Playing.{play-from_validated_events}
use oh_myserial.Replay.Stepping.{total, step_all, step_all-manual_cursor}
use oh_myserial.Examples.Fixtures.{externals, note}

abbrev event_at : ℕ → ℕ → EventEnvelope
event_at seq mono_us = record {
  schema = "ohmyserial.event";
  version = 1;
  session_id = "session";
  seq = seq;
  ts_utc = "2024-01-01T12:00:00Z";
  mono_us = mono_us;
  port_id = "default";
  connection_epoch = 1;
  event = note;
}

abbrev two_events : List EventEnvelope
two_events = event_at 7 100 ∷ event_at 8 250 ∷ []

abbrev two_session : ReplaySession
two_session = record {
  source = none;
  session_id = "session";
  first_seq = 7;
  last_seq = 8;
  events = two_events;
}

-- Speeds as whole numbers.
abbrev whole_speeds : Speeds
whole_speeds = record {
  Speed = ℕ;
  is_accepted = λ speed. true;
  div_f64 = λ delay speed. delay;
  one = 1;
  is_accepted-one = refl;
}

abbrev original_speed : ReplayOptions whole_speeds
original_speed = record { mode = ReplayMode.original; speed = 1 }

two_events-made : from_validated_events externals two_events none ≡ ok two_session
unfolding from_validated_events validated check_next check_rest validate validate_payload
    is_bad_label is_empty has_control
two_events-made = refl

from_validated_events-ok_iff_example :
    (is_ok (from_validated_events externals two_events none) ≡ true)
    ↔ IsCapture externals two_events
from_validated_events-ok_iff_example = from_validated_events-ok_iff externals two_events none

play-from_validated_events_example :
    play whole_speeds 3 two_session original_speed
    ≡ some (two_events, ok (record { emitted = 2; first_seq = some 7; last_seq = some 8 }))
play-from_validated_events_example =
    play-from_validated_events whole_speeds externals 3 two_events none two_session original_speed
      two_events-made refl refl (omega arith)

two_fit : length two_session.events ≤ u64_max
two_fit = omega arith

step_all-manual_cursor_example :
    step_all whole_speeds (manual_cursor whole_speeds two_session) (1 ∷ 0 ∷ 5 ∷ []) []
    ≡ ok (take (total (1 ∷ 0 ∷ 5 ∷ [])) two_session.events)
step_all-manual_cursor_example =
    step_all-manual_cursor whole_speeds two_session (1 ∷ 0 ∷ 5 ∷ []) two_fit
