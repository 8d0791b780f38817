-- ===== src/Workflow/Run.antt =====
-- src/workflow/mod.rs: the runner. A runtime is what `WorkflowRuntime` promises: its methods act on a
-- `World`. What a step sees of the clock, the token, the port and the events is a `Turn`; `none` is a
-- run that still waits for events.
use oh_myserial.Common.{
  ℕ, suc, ◌-◌, Bool, not, ◌||◌, List, [], ◌∷◌, ◌++◌, Option, none, some, String, Result, ok, err,
  ◌>>◌, guard, min, ltb, leb, ◌==◌, if◌then◌else◌, is_some, length, saturating_add, from_millis,
}
use oh_myserial.Common.Text.{show, ◌^^◌}
use oh_myserial.Ledger.Schema.{Externals}
use oh_myserial.Workflow.{WorkflowStep, WorkflowAssertion, WorkflowLimits, WorkflowError, decode}
use oh_myserial.Workflow.WorkflowStep.{lease, send, expect, assert, wait, control}
use oh_myserial.Workflow.WorkflowAssertion.{port_connected, connection_epoch}
use oh_myserial.Workflow.WorkflowError.{
  read_denied, write_denied, control_denied, cancelled, timeout, bytes_limit, assertion,
  evidence_limit,
}
use oh_myserial.Workflow.Expect.{
  EvidenceCursor, WorkflowPortState, Round, check_cancel, expect_bytes,
}

pub record WorkflowAuthorization : Type 0 where
  pub can_read : Bool
  pub can_write : Bool
  pub can_control : Bool
  pub lease_token : Option String

pub record SendReceipt : Type 0 where
  pub bytes : ℕ
  pub tx_seq : Option ℕ

pub record LeaseReceipt : Type 0 where
  pub expires_ms : ℕ
  pub lease_token : Option String

pub record WorkflowRuntime : Type 1 where
  pub World : Type 0
  pub lease_by : World → String → Option String → World × Result LeaseReceipt WorkflowError
  pub send_by : World → String → Option String → List ℕ → World × Result SendReceipt WorkflowError
  pub control_by :
      World
      → String
      → Option String
      → String
      → Option String
      → World × Result (Unit {0}) WorkflowError

pub record Turn : Type 0 where
  pub is_cancelled : Bool
  pub elapsed : ℕ
  pub port : WorkflowPortState
  pub rounds : List Round
  -- `sleep_checked`: whether the token won the `select!`, and the clock behind the sleep.
  pub woken : Bool
  pub elapsed_after : ℕ

pub record StepEvidence : Type 0 where
  pub step : ℕ
  pub op : String
  pub status : String
  pub start_seq : Option ℕ
  pub end_seq : Option ℕ
  pub capture_base64 : Option String

pub record WorkflowResult : Type 0 where
  pub request_id : String
  pub run_id : String
  pub actor : String
  pub status : String
  pub cursor : EvidenceCursor
  pub evidence : List StepEvidence

-- The variables of `run_inner`.
pub record Progress : Type 0 where
  pub auth : WorkflowAuthorization
  pub cursor : EvidenceCursor
  pub evidence : List StepEvidence
  pub captures : ℕ

-- How long `sleep_checked` sleeps.
unfoldable pub sleep_length : ℕ → ℕ → ℕ → ℕ
sleep_length duration_ms elapsed max_ms =
    min (from_millis duration_ms) (from_millis max_ms - elapsed)

unfoldable pub sleep_checked : Bool → ℕ → ℕ → Result (Unit {0}) WorkflowError
sleep_checked woken elapsed_after max_ms = do
  guard (not woken) cancelled
  guard (not (ltb (from_millis max_ms) elapsed_after)) timeout

abbrev pub op_name : WorkflowStep → String
op_name lease = "lease"
op_name (send bytes) = "send"
op_name (expect pattern timeout_ms capture) = "expect"
op_name (assert a) = "assert"
op_name (wait ms) = "wait"
op_name (control name value) = "control"

unfoldable pub check_assertion :
    WorkflowPortState → WorkflowAssertion → Result (Unit {0}) WorkflowError
check_assertion port port_connected = guard port.connected (assertion "port is disconnected")
check_assertion port (connection_epoch equals) =
    guard (port.connection_epoch == equals)
      (assertion ("expected epoch " ^^ show equals ^^ ", got " ^^ show port.connection_epoch))

unfoldable pub or_token : Option String → Option String → Option String
or_token none token = token
or_token (some fresh) token = some fresh

module _ (x : Externals) (rt : WorkflowRuntime) (l : WorkflowLimits) (actor : String) where
  open rt use {World, lease_by, send_by, control_by}

  -- What a step does: the variables behind it and its capture.
  abbrev pub Done : Type 0
  Done = Option (Result (Progress × Option String) WorkflowError)

  abbrev pub leased : Progress → World × Result LeaseReceipt WorkflowError → World × Done
  leased st (w, err e) = (w, some (err e))
  leased st (w, ok receipt) = (
    w,
    some (
        ok (
          record st {
            auth = record (st.auth) {
              lease_token = or_token receipt.lease_token st.auth.lease_token;
            };
          },
          none,
        )),
  )

  abbrev pub acted : {A : Type 0} → Progress → World × Result A WorkflowError → World × Done
  acted st (w, err e) = (w, some (err e))
  acted st (w, ok receipt) = (w, some (ok (st, none)))

  abbrev pub send_decoded : World → Progress → Result (List ℕ) WorkflowError → World × Done
  send_decoded w st (err e) = (w, some (err e))
  send_decoded w st (ok bytes) = acted st (send_by w actor st.auth.lease_token bytes)

  unfoldable pub keep_capture :
      Progress
      → Option String
      → List ℕ
      → EvidenceCursor
      → Result (Progress × Option String) WorkflowError
  keep_capture st none captured c = ok (record st { cursor = c }, none)
  keep_capture st (some name) captured c = do
    let captures = saturating_add st.captures (length captured)
    guard (not (ltb l.max_capture_bytes captures)) (bytes_limit captures l.max_capture_bytes)
    ok (record st { cursor = c; captures = captures }, some (x.encode captured))

  unfoldable pub expected :
      Progress → Option String → Option (Result (List ℕ × EvidenceCursor) WorkflowError) → Done
  unfolding keep_capture
  expected st capture none = none
  expected st capture (some (err e)) = some (err e)
  expected st capture (some (ok (captured, c))) = some (keep_capture st capture captured c)

  unfoldable pub expect_decoded :
      Progress → Turn → Option String → Result (List ℕ) WorkflowError → Done
  unfolding expected expect_bytes
  expect_decoded st t capture (err e) = some (err e)
  expect_decoded st t capture (ok pattern) =
      expected st capture (expect_bytes x pattern l.max_duration_ms t.rounds st.cursor)

  -- The `match` on the step.
  unfoldable pub perform : World → Progress → Turn → WorkflowStep → World × Done
  unfolding expect_decoded
  perform w st t lease =
      if not st.auth.can_write
      then (w, some (err write_denied))
      else leased st (lease_by w actor st.auth.lease_token)
  perform w st t (send bytes) =
      if not st.auth.can_write || not (is_some st.auth.lease_token)
      then (w, some (err write_denied))
      else send_decoded w st (decode x bytes)
  perform w st t (expect pattern timeout_ms capture) = (
    w,
    if not st.auth.can_read
        then some (err read_denied)
        else expect_decoded st t capture (decode x pattern),
  )
  perform w st t (assert a) = (w, some (do check_assertion t.port a; ok (st, none)))
  perform w st t (wait duration_ms) =
      (w, some (do sleep_checked t.woken t.elapsed_after l.max_duration_ms; ok (st, none)))
  perform w st t (control name value) =
      if not st.auth.can_control || not (is_some st.auth.lease_token)
      then (w, some (err control_denied))
      else acted st (control_by w actor st.auth.lease_token name value)

  -- The evidence of a step.
  unfoldable pub push_evidence :
      ℕ → WorkflowStep → ℕ → Progress → Option String → Result Progress WorkflowError
  push_evidence index s start_seq st capture = do
    guard (not (leb l.max_evidence_items (length st.evidence))) evidence_limit
    ok (record st {
      evidence =
          st.evidence
          ++ (record {
            step = index;
            op = op_name s;
            status = "ok";
            start_seq = some start_seq;
            end_seq = some st.cursor.seq;
            capture_base64 = capture;
          }
              ∷ []);
    })

  unfoldable pub performed :
      ℕ → WorkflowStep → ℕ → World × Done → World × Option (Result Progress WorkflowError)
  unfolding push_evidence
  performed index s start_seq (w, none) = (w, none)
  performed index s start_seq (w, some (err e)) = (w, some (err e))
  performed index s start_seq (w, some (ok (st, capture))) =
      (w, some (push_evidence index s start_seq st capture))

  -- One round of the loop of `run_inner`.
  unfoldable pub run_step :
      World → Progress → ℕ → Turn → WorkflowStep → World × Option (Result Progress WorkflowError)
  unfolding performed perform
  run_step w st index t s = elim (check_cancel t.is_cancelled t.elapsed l.max_duration_ms) [
    | err e ↦ (w, some (err e))
    | ok u ↦ performed index s st.cursor.seq (perform w st t s)
  ]

  -- `?` behind a step of the loop.
  abbrev pub proceed :
      World × Option (Result Progress WorkflowError)
      → (World → Progress → World × Option (Result Progress WorkflowError))
      → World × Option (Result Progress WorkflowError)
  proceed (w, none) next = (w, none)
  proceed (w, some (err e)) next = (w, some (err e))
  proceed (w, some (ok st)) next = next w st

  unfoldable pub run_steps :
      World
      → Progress
      → ℕ
      → (ℕ → Turn)
      → List WorkflowStep
      → World × Option (Result Progress WorkflowError)
  run_steps w st index turns [] = (w, some (ok st))
  run_steps w st index turns (s ∷ steps) =
      proceed (run_step w st index (turns index) s)
        λ behind done. run_steps behind done (suc index) turns steps
