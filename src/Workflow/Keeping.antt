-- ===== src/Workflow/Keeping.antt =====
-- src/workflow/mod.rs: what an `expect` step leaves of the variables of a run.
use oh_myserial.Common.{ℕ, ◌≤◌, ◌≡◌, refl, List, Option, none, some, String, Result, ok, err, arith}
use oh_myserial.Ledger.Schema.{Externals}
use oh_myserial.Workflow.{WorkflowLimits, WorkflowError}
use oh_myserial.Workflow.Matcher.{prefix_table}
use oh_myserial.Workflow.Matcher.{◌>>=◌ as bind_option}
use oh_myserial.Workflow.Expect.{EvidenceCursor, Round, expect_bytes, expect_loop}
use oh_myserial.Workflow.Expecting.{IsFound, expect_loop-IsFound}
use oh_myserial.Workflow.Run.{
  WorkflowRuntime, Turn, Progress, expect_decoded, keep_capture, expected, Done,
}

-- The permissions and the evidence are left, and the cursor does not go back.
abbrev pub Keeps : Progress → Progress → Type 0
Keeps st d = (d.auth ≡ st.auth) × (d.evidence ≡ st.evidence) × (st.cursor.seq ≤ d.cursor.seq)

abbrev Forward : EvidenceCursor → Option (Result (List ℕ × EvidenceCursor) WorkflowError) → Type 0
Forward c none = Unit
Forward c (some (err e)) = Unit
Forward c (some (ok (captured, d))) = c.seq ≤ d.seq

loop-Forward :
    (x : Externals) (pattern table : List ℕ) (c : EvidenceCursor) (rounds : List Round)
    (o : Option (Result (List ℕ × EvidenceCursor) WorkflowError))
    → IsFound x pattern table c 0 rounds o
    → Forward c o
loop-Forward x pattern table c rounds none h = tt
loop-Forward x pattern table c rounds (some (err e)) h = tt
loop-Forward x pattern table c rounds (some (ok (captured, d))) h = ground (arith, h)

expect_bytes-Forward :
    (x : Externals) (pattern : List ℕ) (max_ms : ℕ) (rounds : List Round) (c : EvidenceCursor)
    (table : Option (List ℕ))
    → Forward c (bind_option table λ t. expect_loop x pattern t max_ms rounds c 0)
expect_bytes-Forward x pattern max_ms rounds c none = tt
expect_bytes-Forward x pattern max_ms rounds c (some t) =
    loop-Forward x pattern t c rounds (expect_loop x pattern t max_ms rounds c 0)
      (expect_loop-IsFound x pattern t max_ms rounds c 0)

module _ (x : Externals) (rt : WorkflowRuntime) (l : WorkflowLimits) (actor : String) where
  abbrev pub OnDone : (Progress → Type 0) → Done x rt l actor → Type 0
  OnDone P none = Unit
  OnDone P (some (err e)) = Unit
  OnDone P (some (ok (st, capture))) = P st

  expected-Keeps :
      (st : Progress) (capture : Option String)
      (o : Option (Result (List ℕ × EvidenceCursor) WorkflowError))
      → Forward st.cursor o
      → OnDone (Keeps st) (expected x rt l actor st capture o)
  unfolding expected keep_capture
  expected-Keeps st capture none h = tt
  expected-Keeps st capture (some (err e)) h = tt
  expected-Keeps st none (some (ok (captured, d))) h = (refl, refl, h)
  expected-Keeps st (some name) (some (ok (captured, d))) h = ground (arith, h)

  pub expect_decoded-Keeps :
      (st : Progress) (t : Turn) (capture : Option String) (r : Result (List ℕ) WorkflowError)
      → OnDone (Keeps st) (expect_decoded x rt l actor st t capture r)
  unfolding expect_decoded expect_bytes
  expect_decoded-Keeps st t capture (err e) = tt
  expect_decoded-Keeps st t capture (ok pattern) =
      expected-Keeps st capture _
        (expect_bytes-Forward x pattern l.max_duration_ms t.rounds st.cursor (prefix_table pattern))
