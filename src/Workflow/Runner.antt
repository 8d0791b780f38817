-- ===== src/Workflow/Runner.antt =====
-- src/workflow/mod.rs: `run_inner` and `run`, with the tables of completed and active requests.
use oh_myserial.Common.{
  ℕ, not, ◌||◌, List, [], ◌∷◌, Option, none, some, String, Result, ok, err, ◌>>◌, guard, ltb, ◌==◌,
  str_eq, if◌then◌else◌, any,
}
use oh_myserial.Common.Text.{byte_len, has_control, is_blank, ◌^^◌}
use oh_myserial.Common.Map.{lookup, insert}
use oh_myserial.Ledger.Schema.{Externals}
use oh_myserial.Workflow.{
  WorkflowStep, WorkflowDefinition, WorkflowLimits, WorkflowError, validate_definition,
}
use oh_myserial.Workflow.WorkflowError.{request_in_progress, invalid_request_id, epoch_changed}
use oh_myserial.Workflow.Expect.{EvidenceCursor, WorkflowPortState}
use oh_myserial.Workflow.Run.{
  WorkflowAuthorization, WorkflowRuntime, Turn, WorkflowResult, Progress, run_steps,
}

-- What a run finds when it starts, and a fresh id for it.
pub record Start : Type 0 where
  pub subscribed : Result EvidenceCursor WorkflowError
  pub initial_state : WorkflowPortState
  pub run_id : String

module _ (x : Externals) (rt : WorkflowRuntime) (l : WorkflowLimits) where
  open rt use {World}

  abbrev pub Outcome : Type 0
  Outcome = World × Option (Result WorkflowResult WorkflowError)

  unfoldable pub finished :
      String → String → World × Option (Result Progress WorkflowError) → Outcome
  finished request_id run_id (w, none) = (w, none)
  finished request_id run_id (w, some (err e)) = (w, some (err e))
  finished request_id run_id (w, some (ok st)) = (
    w,
    some (
        ok (record {
          request_id = request_id;
          run_id = run_id;
          actor = "workflow:" ^^ run_id;
          status = "succeeded";
          cursor = st.cursor;
          evidence = st.evidence;
        })),
  )

  unfoldable pub subscribed_to :
      World
      → String
      → List WorkflowStep
      → WorkflowAuthorization
      → Start
      → (ℕ → Turn)
      → Result EvidenceCursor WorkflowError
      → Outcome
  unfolding finished
  subscribed_to w request_id steps auth start turns (err e) = (w, some (err e))
  subscribed_to w request_id steps auth start turns (ok c) =
      if not (c.connection_epoch == start.initial_state.connection_epoch)
      then (w, some (err (epoch_changed c.connection_epoch start.initial_state.connection_epoch)))
      else finished request_id start.run_id (
          run_steps x rt l ("workflow:" ^^ start.run_id) w
            (record { auth = auth; cursor = c; evidence = []; captures = 0 }) 0 turns steps)

  unfoldable pub run_inner :
      World → String → WorkflowDefinition → WorkflowAuthorization → Start → (ℕ → Turn) → Outcome
  unfolding subscribed_to run_steps
  run_inner w request_id d auth start turns =
      subscribed_to w request_id d.steps auth start turns start.subscribed

-- The runner's two tables.
pub record WorkflowRunner : Type 0 where
  pub completed : List (String × WorkflowResult)
  pub active : List String

-- `HashSet::remove`.
unfoldable pub forget : String → List String → List String
forget name [] = []
forget name (a ∷ names) = if str_eq a name then forget name names else a ∷ forget name names

module _ (x : Externals) (rt : WorkflowRuntime) (l : WorkflowLimits) where
  open rt use {World}

  -- `run` up to the work: a previous result, or the id is active from now on.
  unfoldable pub begin_run :
      WorkflowRunner
      → String
      → WorkflowDefinition
      → Result (WorkflowRunner × Option WorkflowResult) WorkflowError
  begin_run r request_id d = do
    guard (not (is_blank request_id || ltb 128 (byte_len request_id) || has_control request_id))
        invalid_request_id
    validate_definition x d l
    let running = any (λ a. str_eq a request_id) r.active
    elim (lookup request_id r.completed) [
      | some previous ↦ ok (r, some previous)
      | none ↦ (do
        guard (not running) request_in_progress
        ok (record r { active = request_id ∷ r.active }, none))
    ]

  unfoldable pub end_run :
      WorkflowRunner → String → Result WorkflowResult WorkflowError → WorkflowRunner
  end_run r request_id (err e) = record r { active = forget request_id r.active }
  end_run r request_id (ok result) = record {
    completed = insert request_id result r.completed;
    active = forget request_id r.active;
  }

  -- The runner after the work, on which other runs have acted meanwhile.
  unfoldable pub ended :
      WorkflowRunner
      → String
      → World × Option (Result WorkflowResult WorkflowError)
      → WorkflowRunner × World × Option (Result WorkflowResult WorkflowError)
  unfolding end_run
  ended r request_id (w, none) = (r, w, none)
  ended r request_id (w, some result) = (end_run r request_id result, w, some result)

  unfoldable pub started :
      World
      → WorkflowRunner
      → String
      → WorkflowDefinition
      → WorkflowAuthorization
      → Start
      → (ℕ → Turn)
      → (WorkflowRunner → WorkflowRunner)
      → Result (WorkflowRunner × Option WorkflowResult) WorkflowError
      → WorkflowRunner × World × Option (Result WorkflowResult WorkflowError)
  unfolding ended run_inner
  started w r request_id d auth start turns others (err e) = (r, w, some (err e))
  started w r request_id d auth start turns others (ok (begun, some previous)) =
      (begun, w, some (ok previous))
  started w r request_id d auth start turns others (ok (begun, none)) =
      ended (others begun) request_id (run_inner x rt l w request_id d auth start turns)

  -- `WorkflowRunner::run`; `others` is what other runs do to the tables during the work.
  unfoldable pub run :
      World
      → WorkflowRunner
      → String
      → WorkflowDefinition
      → WorkflowAuthorization
      → Start
      → (ℕ → Turn)
      → (WorkflowRunner → WorkflowRunner)
      → WorkflowRunner × World × Option (Result WorkflowResult WorkflowError)
  unfolding started begin_run
  run w r request_id d auth start turns others =
      started w r request_id d auth start turns others (begin_run r request_id d)
