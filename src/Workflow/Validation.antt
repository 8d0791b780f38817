-- ===== src/Workflow/Validation.antt =====
-- src/workflow/mod.rs: which definitions `validate` accepts.
use oh_myserial.Common.{
  ℕ, ◌+◌, ◌≤◌, ◌<◌, ◌≡◌, ◌↔◌, inl, inr, true, false, List, [], ◌∷◌, Option, none, some, String,
  Result, ok, err, ◌>>=◌, is_ok, OnOk, Result-cases, arith, subst, length, All, min, u64_max,
}
use oh_myserial.Common.Text.{byte_len, has_control, is_blank, is_empty}
use oh_myserial.Ledger.Schema.{Externals}
use oh_myserial.Workflow.{
  WorkflowStep, WorkflowDefinition, WorkflowLimits, WorkflowError, decode, validate_limits,
  validate_step, validate_steps, validate_definition, is_bad_capture, add_timeout,
}
use oh_myserial.Workflow.WorkflowStep.{lease, send, expect, assert, wait, control}

-- The bytes of a value are there, not empty and at most `max`.
abbrev HasBytes : ℕ → Result (List ℕ) WorkflowError → Type 0
HasBytes max (err e) = ⊥
HasBytes max (ok bytes) = (0 < length bytes) × (length bytes ≤ max)

-- A name of 1..=max bytes without control characters.
abbrev IsName : ℕ → String → Type 0
IsName max name = (is_empty name ≡ false) × (byte_len name ≤ max) × (has_control name ≡ false)

abbrev IsCapture : Option String → Type 0
IsCapture none = Unit
IsCapture (some name) = IsName 64 name

abbrev IsControlValue : Option String → Type 0
IsControlValue none = Unit
IsControlValue (some value) = byte_len value ≤ 1024

-- The milliseconds that a step may wait for.
abbrev pub step_wait : WorkflowStep → ℕ
step_wait lease = 0
step_wait (send bytes) = 0
step_wait (expect pattern none capture) = 0
step_wait (expect pattern (some ms) capture) = ms
step_wait (assert a) = 0
step_wait (wait ms) = ms
step_wait (control name value) = 0

abbrev pub total_wait : List WorkflowStep → ℕ
total_wait [] = 0
total_wait (s ∷ steps) = step_wait s + total_wait steps

module _ (x : Externals) (l : WorkflowLimits) where
  abbrev pub IsAllowed : WorkflowStep → Type 0
  IsAllowed lease = Unit
  IsAllowed (send bytes) = HasBytes l.max_capture_bytes (decode x bytes)
  IsAllowed (expect pattern timeout_ms capture) =
      HasBytes l.max_pattern_bytes (decode x pattern) × IsCapture capture
  IsAllowed (assert a) = Unit
  IsAllowed (wait ms) = Unit
  IsAllowed (control name value) = IsName 128 name × IsControlValue value

  -- What a definition must be.
  abbrev pub IsRunnable : WorkflowDefinition → Type 0
  IsRunnable d =
      (is_blank d.id ≡ false)
      × (byte_len d.id ≤ 128)
      × (has_control d.id ≡ false)
      × (1 ≤ length d.steps)
      × (length d.steps ≤ l.max_steps)
      × All IsAllowed d.steps
      × (total_wait d.steps ≤ l.max_duration_ms)

  validate_step_iff :
      (total : ℕ) (s : WorkflowStep) → (is_ok (validate_step x l total s) ≡ true) ↔ IsAllowed s
  unfolding validate_step is_bad_capture
  validate_step_iff total lease = ground arith
  validate_step_iff total (send bytes) = ground arith
  validate_step_iff total (expect pattern timeout_ms none) = ground arith
  validate_step_iff total (expect pattern timeout_ms (some name)) = ground arith
  validate_step_iff total (assert a) = ground arith
  validate_step_iff total (wait ms) = ground arith
  validate_step_iff total (control name none) = ground arith
  validate_step_iff total (control name (some value)) = ground arith

  -- What the loop adds to the waits so far.
  IsTotal : ℕ → ℕ → Result ℕ WorkflowError → Type 0
  IsTotal total more r = OnOk r (λ t. t ≡ min (total + more) u64_max)

  validate_step-IsTotal :
      (total : ℕ) (s : WorkflowStep)
      → total ≤ u64_max
      → IsTotal total (step_wait s) (validate_step x l total s)
  unfolding validate_step add_timeout IsTotal
  validate_step-IsTotal total lease h = ground arith
  validate_step-IsTotal total (send bytes) h = ground arith
  validate_step-IsTotal total (expect pattern none capture) h = ground arith
  validate_step-IsTotal total (expect pattern (some ms) capture) h = ground arith
  validate_step-IsTotal total (assert a) h = ground arith
  validate_step-IsTotal total (wait ms) h = ground arith
  validate_step-IsTotal total (control name value) h = ground arith

  IsTotal-bind :
      (total a b : ℕ) (m : Result ℕ WorkflowError) (f : ℕ → Result ℕ WorkflowError)
      → IsTotal total a m
      → ((more : ℕ) → more ≤ u64_max → IsTotal more b (f more))
      → IsTotal total (a + b) (m >>= f)
  unfolding IsTotal
  IsTotal-bind total a b (err error) f first behind = tt
  IsTotal-bind total a b (ok more) f first behind =
      subst (λ z. OnOk (f more) (λ t. t ≡ z)) (omega (arith, first))
        (behind more (omega (arith, first)))

  validate_steps-IsTotal :
      (total : ℕ) (steps : List WorkflowStep)
      → total ≤ u64_max
      → IsTotal total (total_wait steps) (validate_steps x l total steps)
  unfolding validate_steps IsTotal
  validate_steps-IsTotal total [] h = omega arith
  validate_steps-IsTotal total (s ∷ steps) h =
      IsTotal-bind total (step_wait s) (total_wait steps) (validate_step x l total s)
        (λ more. validate_steps x l more steps) (validate_step-IsTotal total s h)
        (λ more. validate_steps-IsTotal more steps)

  validate_steps_iff :
      (total : ℕ) (steps : List WorkflowStep)
      → (is_ok (validate_steps x l total steps) ≡ true) ↔ All IsAllowed steps
  unfolding validate_steps
  validate_steps_iff total [] = ground arith
  validate_steps_iff total (s ∷ steps) = elim (Result-cases (validate_step x l total s)) [
    | inl (more, e) ↦ ground (arith, validate_step_iff total s, validate_steps_iff more steps)
    | inr (error, e) ↦ ground (arith, validate_step_iff total s)
  ]

  abbrev pub HasLimits : Type 0
  HasLimits =
      (0 < l.max_steps)
      × (0 < l.max_duration_ms)
      × (0 < l.max_pattern_bytes)
      × (0 < l.max_capture_bytes)
      × (0 < l.max_evidence_items)

  limits_iff : (validate_limits l ≡ ok tt) ↔ HasLimits
  unfolding validate_limits
  limits_iff = ground arith

  -- Under a maximal duration below the largest u64, a definition is accepted exactly when every limit
  -- is positive, its id is a name of at most 128 bytes that is not blank, it has from one to
  -- the maximum of steps, each step names bytes and names within the limits, and the waits and
  -- timeouts of all steps together are within the maximal duration.
  pub validate_definition-ok_iff :
      (d : WorkflowDefinition)
      → l.max_duration_ms < u64_max
      → (validate_definition x d l ≡ ok tt) ↔ (HasLimits × IsRunnable d)
  unfolding validate_definition IsTotal
  validate_definition-ok_iff d h = ground (
    arith,
    limits_iff,
    validate_steps_iff 0 d.steps,
    validate_steps-IsTotal 0 d.steps (omega arith),
  )
