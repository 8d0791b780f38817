-- ===== src/Workflow/Reading.antt =====
-- src/workflow/mod.rs: a workflow that may not write or control does nothing to the device.
use oh_myserial.Common.{
  ℕ, suc, ◌≡◌, refl, Bool, true, false, not, List, [], ◌∷◌, Option, none, some, String, Result, ok,
  err, arith, ◌==◌, if◌then◌else◌, subst, sym,
}
use oh_myserial.Ledger.Schema.{Externals}
use oh_myserial.Workflow.{WorkflowStep, WorkflowDefinition, WorkflowLimits, WorkflowError, decode}
use oh_myserial.Workflow.WorkflowStep.{lease, send, expect, assert, wait, control}
use oh_myserial.Workflow.Expect.{EvidenceCursor, check_cancel}
use oh_myserial.Workflow.Run.{
  WorkflowAuthorization, WorkflowRuntime, Turn, Progress, perform, performed, push_evidence,
  run_step, run_steps, proceed, Done,
}
use oh_myserial.Workflow.Keeping.{Keeps, OnDone, expect_decoded-Keeps}
use oh_myserial.Workflow.Runner.{Start, Outcome, run_inner, subscribed_to, finished}
use oh_myserial.Common.Text.{◌^^◌}

module _ (x : Externals) (rt : WorkflowRuntime) (l : WorkflowLimits) (actor : String) where
  open rt use {World}

  abbrev MayOnlyRead : Progress → Type 0
  MayOnlyRead st = (st.auth.can_write ≡ false) × (st.auth.can_control ≡ false)

  -- The world is left, and the permissions.
  abbrev IsLeft : World → World × Option (Result Progress WorkflowError) → Type 0
  IsLeft w (behind, none) = behind ≡ w
  IsLeft w (behind, some (err e)) = behind ≡ w
  IsLeft w (behind, some (ok st)) = (behind ≡ w) × MayOnlyRead st

  abbrev IsLeftBy : World → World × Done x rt l actor → Type 0
  IsLeftBy w (behind, none) = behind ≡ w
  IsLeftBy w (behind, some (err e)) = behind ≡ w
  IsLeftBy w (behind, some (ok (st, capture))) = (behind ≡ w) × MayOnlyRead st

  left_by :
      (w : World) (st : Progress) (o : Done x rt l actor)
      → MayOnlyRead st
      → OnDone x rt l actor (Keeps st) o
      → IsLeftBy w (w, o)
  left_by w st none h k = refl
  left_by w st (some (err e)) h k = refl
  left_by w st (some (ok (d, capture))) h k = ground (arith, h, k)

  either_read :
      (w : World) (st : Progress) (b : Bool) (e : WorkflowError) (o : Done x rt l actor)
      → MayOnlyRead st
      → OnDone x rt l actor (Keeps st) o
      → IsLeftBy w (w, if b then some (err e) else o)
  either_read w st true e o h k = refl
  either_read w st false e o h k = left_by w st o h k

  perform-IsLeftBy :
      (w : World) (st : Progress) (t : Turn) (s : WorkflowStep)
      → MayOnlyRead st
      → IsLeftBy w (perform x rt l actor w st t s)
  unfolding perform
  perform-IsLeftBy w st t lease h = ground (arith, h)
  perform-IsLeftBy w st t (send bytes) h = ground (arith, h)
  perform-IsLeftBy w st t (expect pattern timeout_ms capture) h =
      either_read w st (not st.auth.can_read) WorkflowError.read_denied _ h
        (expect_decoded-Keeps x rt l actor st t capture (decode x pattern))
  perform-IsLeftBy w st t (assert a) h = ground (arith, h)
  perform-IsLeftBy w st t (wait ms) h = ground (arith, h)
  perform-IsLeftBy w st t (control name value) h = ground (arith, h)

  performed-IsLeft :
      (w : World) (index seq : ℕ) (s : WorkflowStep) (o : World × Done x rt l actor)
      → IsLeftBy w o
      → IsLeft w (performed x rt l actor index s seq o)
  unfolding performed push_evidence
  performed-IsLeft w index seq s (b, none) h = h
  performed-IsLeft w index seq s (b, some (err e)) h = h
  performed-IsLeft w index seq s (b, some (ok (st, capture))) h = ground (arith, h)

  run_step-IsLeft :
      (w : World) (st : Progress) (index : ℕ) (t : Turn) (s : WorkflowStep)
      → MayOnlyRead st
      → IsLeft w (run_step x rt l actor w st index t s)
  unfolding run_step
  run_step-IsLeft w st index t s h =
      elim (check_cancel t.is_cancelled t.elapsed l.max_duration_ms)
        as (λ z. IsLeft w (elim z [
          | err e ↦ (w, some (err e))
          | ok u ↦ performed x rt l actor index s st.cursor.seq (perform x rt l actor w st t s)
        ])) [
          | err e ↦ refl
          | ok u ↦
              performed-IsLeft w index st.cursor.seq s (perform x rt l actor w st t s)
                (perform-IsLeftBy w st t s h)
        ]

  proceed-IsLeft :
      (w : World) (o : World × Option (Result Progress WorkflowError))
      (next : World → Progress → World × Option (Result Progress WorkflowError))
      → IsLeft w o
      → ((st : Progress) → MayOnlyRead st → IsLeft w (next w st))
      → IsLeft w (proceed x rt l actor o next)
  proceed-IsLeft w (b, none) next h k = h
  proceed-IsLeft w (b, some (err e)) next h k = h
  proceed-IsLeft w (b, some (ok st)) next h k =
      subst (λ z. IsLeft w (next z st)) (sym h.0) (k st h.1)

  run_steps-IsLeft :
      (w : World) (st : Progress) (index : ℕ) (turns : ℕ → Turn) (steps : List WorkflowStep)
      → MayOnlyRead st
      → IsLeft w (run_steps x rt l actor w st index turns steps)
  unfolding run_steps
  run_steps-IsLeft w st index turns [] h = (refl, h)
  run_steps-IsLeft w st index turns (s ∷ steps) h =
      proceed-IsLeft w (run_step x rt l actor w st index (turns index) s) _
        (run_step-IsLeft w st index (turns index) s h)
        (λ done. run_steps-IsLeft w done (suc index) turns steps)

module _ (x : Externals) (rt : WorkflowRuntime) (l : WorkflowLimits) where
  finished-left :
      (w : rt.World) (request_id run_id : String)
      (o : rt.World × Option (Result Progress WorkflowError))
      → IsLeft x rt l ("workflow:" ^^ run_id) w o
      → (finished x rt l request_id run_id o).0 ≡ w
  unfolding finished
  finished-left w request_id run_id (b, none) h = h
  finished-left w request_id run_id (b, some (err e)) h = h
  finished-left w request_id run_id (b, some (ok st)) h = h.0

  refused_or :
      (w : rt.World) (refused : Bool) (e : WorkflowError) (o : Outcome x rt l)
      → o.0 ≡ w
      → (if refused then (w, some (err e)) else o).0 ≡ w
  refused_or w true e o h = refl
  refused_or w false e o h = h

  subscribed_to-left :
      (w : rt.World) (request_id : String) (steps : List WorkflowStep)
      (auth : WorkflowAuthorization) (start : Start) (turns : ℕ → Turn)
      (subscribed : Result EvidenceCursor WorkflowError)
      → auth.can_write ≡ false
      → auth.can_control ≡ false
      → (subscribed_to x rt l w request_id steps auth start turns subscribed).0 ≡ w
  unfolding subscribed_to
  subscribed_to-left w request_id steps auth start turns (err e) no_write no_control = refl
  subscribed_to-left w request_id steps auth start turns (ok c) no_write no_control =
      refused_or w (not (c.connection_epoch == start.initial_state.connection_epoch)) _ _ (
        finished-left w request_id start.run_id _ (
          run_steps-IsLeft x rt l ("workflow:" ^^ start.run_id) w
            (record { auth = auth; cursor = c; evidence = []; captures = 0 }) 0 turns steps
            (no_write, no_control)))

  -- A run without the permission to write and the permission to control leaves the world of the
  -- runtime as it was, whatever its steps and however it ends: no lease is taken, no byte is sent and
  -- no control line is touched.
  pub run_inner_reads :
      (w : rt.World) (request_id : String) (d : WorkflowDefinition) (auth : WorkflowAuthorization)
      (start : Start) (turns : ℕ → Turn)
      → auth.can_write ≡ false
      → auth.can_control ≡ false
      → (run_inner x rt l w request_id d auth start turns).0 ≡ w
  unfolding run_inner
  run_inner_reads w request_id d auth start turns =
      subscribed_to-left w request_id d.steps auth start turns start.subscribed
