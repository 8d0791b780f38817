-- ===== src/Examples/Workflows.antt =====
-- A workflow on a device that answers `OK` in two reads.
use oh_myserial.Common.{
  ℕ, suc, ◌≡◌, ◌↔◌, refl, Bool, true, false, List, [], ◌∷◌, flatten, none, some, String, ok, arith,
}
use oh_myserial.Common.Text.{has_control, is_blank, ◌^^◌}
use oh_myserial.Common.Map.{lookup, insert}
use oh_myserial.Ledger.Schema.{EventEnvelope, rx, decode_payload}
use oh_myserial.Workflow.{
  ByteValue, WorkflowStep, WorkflowDefinition, default_limits, validate_definition, validate_limits,
  validate_steps, validate_step, decode, decode_hex, hex_pairs, compact,
}
use oh_myserial.Workflow.Matcher.{prefix_table, prefix_loop, zeros, set, advance, fall_back, scan}
use oh_myserial.Workflow.Matching.{Occurs, search, search-Occurs}
use oh_myserial.Workflow.Validation.{validate_definition-ok_iff, HasLimits, IsRunnable}
use oh_myserial.Workflow.Expect.{
  EvidenceCursor, Round, event, WorkflowPortState, expect_bytes, expect_loop, expect_round,
  begin_round, matched_round, match_event, scan_read, scanned_to, check_port, check_cancel, receive,
  consume_event,
}
use oh_myserial.Workflow.Expecting.{
  Continues, bytes_read, expect_bytes-Occurs, read_of, received_read, event_read, payload_read,
}
use oh_myserial.Workflow.Finding.{place, IsQuiet, expect_bytes-finds}
use oh_myserial.Workflow.Run.{
  WorkflowRuntime, WorkflowAuthorization, Turn, WorkflowResult, StepEvidence, run_steps, run_step,
  perform, performed, push_evidence, sleep_checked, or_token,
}
use oh_myserial.Workflow.Runner.{
  Start, WorkflowRunner, run_inner, run, finished, subscribed_to, begin_run, end_run, started,
  ended, forget,
}
use oh_myserial.Workflow.Reading.{run_inner_reads}
use oh_myserial.Workflow.Recording.{IsReport, run_inner-IsReport}
use oh_myserial.Workflow.Repeating.{run_again}
use oh_myserial.Examples.Fixtures.{externals}

abbrev read_event : ℕ → List ℕ → EventEnvelope
read_event seq bytes = record {
  schema = "ohmyserial.event";
  version = 1;
  session_id = "session";
  seq = seq;
  ts_utc = "2024-01-01T12:00:00Z";
  mono_us = 0;
  port_id = "default";
  connection_epoch = 1;
  event = rx (record { data_base64 = externals.encode bytes; len = 1 });
}

abbrev here : EvidenceCursor
here = record {
  session_id = "session";
  port_id = "default";
  connection_epoch = 1;
  seq = 4;
  byte_offset = 0;
}

abbrev up : WorkflowPortState
up = record { connected = true; connection_epoch = 1 }

abbrev round_of : EventEnvelope → Round
round_of e = record {
  is_cancelled = false;
  elapsed = 1000;
  remaining = 5000;
  received = event e;
  port = up;
}

-- The bytes 1 and 2, one in each read.
abbrev two_rounds : List Round
two_rounds = round_of (read_event 5 (1 ∷ [])) ∷ round_of (read_event 6 (2 ∷ [])) ∷ []

abbrev behind : EvidenceCursor
behind = record here { seq = 6 }

search-Occurs_example :
    (answer : Bool) × (search (1 ∷ 1 ∷ 2 ∷ []) ((1 ∷ 1 ∷ []) ∷ (1 ∷ 2 ∷ []) ∷ []) ≡ some answer)
    × ((answer ≡ true) ↔ Occurs (1 ∷ 1 ∷ 2 ∷ []) (flatten ((1 ∷ 1 ∷ []) ∷ (1 ∷ 2 ∷ []) ∷ [])))
search-Occurs_example = search-Occurs 1 (1 ∷ 2 ∷ []) ((1 ∷ 1 ∷ []) ∷ (1 ∷ 2 ∷ []) ∷ [])

found_there :
    expect_bytes externals (1 ∷ 2 ∷ []) 30000 two_rounds here ≡ some (ok (1 ∷ 2 ∷ [], behind))
unfolding expect_bytes expect_loop expect_round begin_round matched_round match_event scan_read
    scanned_to check_port check_cancel receive consume_event prefix_table prefix_loop zeros set
    advance fall_back scan decode_payload
found_there = refl

expect_bytes-Occurs_example :
    (◌≡◌ {A = List ℕ} (1 ∷ 2 ∷ []) (1 ∷ 2 ∷ []))
    × Occurs (1 ∷ 2 ∷ []) (bytes_read externals two_rounds)
    × Continues here behind
expect_bytes-Occurs_example =
    expect_bytes-Occurs externals 1 (2 ∷ []) 30000 two_rounds here behind (1 ∷ 2 ∷ []) found_there

pattern_there : Occurs (1 ∷ 2 ∷ []) (bytes_read externals two_rounds)
unfolding read_of received_read event_read payload_read decode_payload
pattern_there = record {
  before = 1 ∷ 2 ∷ [];
  after = [];
  split = refl;
  ending = record { front = []; joined = refl };
}

two-IsQuiet : IsQuiet externals 30000 (place here) two_rounds
unfolding decode_payload
two-IsQuiet = ground arith

expect_bytes-finds_example :
    (d : EvidenceCursor) × (expect_bytes externals (1 ∷ 2 ∷ []) 30000 two_rounds here
      ≡ some (ok (1 ∷ 2 ∷ [], d)))
expect_bytes-finds_example =
    expect_bytes-finds externals 30000 1 (2 ∷ []) two_rounds here two-IsQuiet pattern_there

-- A lease, two bytes sent, a pause.
abbrev ask : WorkflowDefinition
ask = record {
  id = "ask";
  name = none;
  steps =
      WorkflowStep.lease ∷ WorkflowStep.send (ByteValue.hex "01 02") ∷ WorkflowStep.wait 10 ∷ [];
}

validate_definition-ok_iff_example :
    (validate_definition externals ask default_limits ≡ ok tt)
    ↔ (HasLimits externals default_limits × IsRunnable externals default_limits ask)
validate_definition-ok_iff_example =
    validate_definition-ok_iff externals default_limits ask (omega arith)

-- A device that counts what is asked of it.
abbrev counter : WorkflowRuntime
counter = record {
  World = ℕ;
  lease_by = λ n actor token. (suc n, ok (record { expires_ms = 500; lease_token = some "t" }));
  send_by = λ n actor token bytes. (suc n, ok (record { bytes = 2; tx_seq = none }));
  control_by = λ n actor token name value. (suc n, ok tt);
}

abbrev writer : WorkflowAuthorization
writer = record { can_read = true; can_write = true; can_control = false; lease_token = none }

abbrev reader : WorkflowAuthorization
reader = record { can_read = true; can_write = false; can_control = false; lease_token = none }

abbrev start : Start
start = record { subscribed = ok here; initial_state = up; run_id = "7" }

abbrev calm : ℕ → Turn
calm n = record {
  is_cancelled = false;
  elapsed = 1000;
  port = up;
  rounds = [];
  woken = false;
  elapsed_after = 2000;
}

run_inner_reads_example :
    (run_inner externals counter default_limits 0 "r" ask reader start calm).0 ≡ 0
run_inner_reads_example =
    run_inner_reads externals counter default_limits 0 "r" ask reader start calm refl refl

abbrev done_step : ℕ → String → StepEvidence
done_step step op = record {
  step = step;
  op = op;
  status = "ok";
  start_seq = some 4;
  end_seq = some 4;
  capture_base64 = none;
}

abbrev asked : WorkflowResult
asked = record {
  request_id = "r";
  run_id = "7";
  actor = "workflow:" ^^ "7";
  status = "succeeded";
  cursor = here;
  evidence = done_step 0 "lease" ∷ done_step 1 "send" ∷ done_step 2 "wait" ∷ [];
}

ask_runs :
    run_inner externals counter default_limits 0 "r" ask writer start calm ≡ (2, some (ok asked))
unfolding run_inner subscribed_to finished run_steps run_step perform performed push_evidence
    check_cancel sleep_checked decode decode_hex compact hex_pairs or_token
ask_runs = refl

run_inner-IsReport_example : IsReport externals counter default_limits "r" 4 ask.steps asked
run_inner-IsReport_example =
    run_inner-IsReport externals counter default_limits 0 2 "r" ask writer start calm here asked
      refl ask_runs

abbrev idle : WorkflowRunner
idle = record { completed = []; active = [] }

abbrev has_asked : WorkflowRunner
has_asked = record { completed = ("r", asked) ∷ []; active = [] }

ask_valid : validate_definition externals ask default_limits ≡ ok tt
unfolding validate_definition validate_limits validate_steps validate_step decode decode_hex compact
    hex_pairs is_blank has_control
ask_valid = refl

ask_completes :
    run externals counter default_limits 0 idle "r" ask writer start calm (λ r. r)
    ≡ (has_asked, 2, some (ok asked))
unfolding run started ended begin_run end_run forget lookup insert is_blank has_control
    validate_definition validate_limits validate_steps validate_step run_inner subscribed_to
    finished run_steps run_step perform performed push_evidence check_cancel sleep_checked decode
    decode_hex compact hex_pairs or_token
ask_completes = refl

run_again_example :
    run externals counter default_limits 5 has_asked "r" ask reader start calm (λ r. r)
    ≡ (has_asked, 5, some (ok asked))
run_again_example =
    run_again externals counter default_limits 0 2 5 idle has_asked "r" ask ask writer reader start
      start calm calm (λ r. r) (λ r. r) asked ask_completes ask_valid
