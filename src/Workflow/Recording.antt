-- ===== src/Workflow/Recording.antt =====
-- src/workflow/mod.rs: the evidence of a run that succeeds.
use oh_myserial.Common.{
  ℕ, suc, ◌≤◌, ◌≡◌, refl, Bool, true, false, not, ◌||◌, List, [], ◌∷◌, ◌++◌, Option, none, some,
  String, Result, ok, err, arith, is_some, ◌==◌, if◌then◌else◌, ◌∙◌, ap, subst, sym, length,
  length-append, leb, guard, ◌>>◌,
}
use mathlib.Core.List.{append_assoc, append-nil}
use oh_myserial.Common.Text.{◌^^◌}
use oh_myserial.Ledger.Schema.{Externals}
use oh_myserial.Workflow.{WorkflowStep, WorkflowDefinition, WorkflowLimits, WorkflowError, decode}
use oh_myserial.Workflow.WorkflowStep.{lease, send, expect, assert, wait, control}
use oh_myserial.Workflow.Expect.{EvidenceCursor, check_cancel}
use oh_myserial.Workflow.Run.{
  WorkflowAuthorization, WorkflowRuntime, Turn, Progress, perform, performed, push_evidence,
  run_step, run_steps, proceed, Done, StepEvidence, WorkflowResult, op_name, leased, acted,
  send_decoded, LeaseReceipt,
}
use oh_myserial.Workflow.Keeping.{Keeps, OnDone, expect_decoded-Keeps}
use oh_myserial.Workflow.Runner.{Start, Outcome, run_inner, subscribed_to, finished}

-- The record of one step, from the cursor's number `from` to `to`.
abbrev pub IsRecord : ℕ → WorkflowStep → ℕ → ℕ → StepEvidence → Type 0
IsRecord index s from to e =
    (e.step ≡ index)
    × (e.op ≡ op_name s)
    × (e.status ≡ "ok")
    × (e.start_seq ≡ some from)
    × (e.end_seq ≡ some to)
    × (from ≤ to)

-- One record for each step, in order, each from where the one before it ended.
abbrev pub AreRecords : ℕ → ℕ → List WorkflowStep → List StepEvidence → ℕ → Type 0
AreRecords index from [] [] to = from ≡ to
AreRecords index from [] (e ∷ records) to = ⊥
AreRecords index from (s ∷ steps) [] to = ⊥
AreRecords index from (s ∷ steps) (e ∷ records) to =
    (mid : ℕ) × IsRecord index s from mid e × AreRecords (suc index) mid steps records to

module _ (x : Externals) (rt : WorkflowRuntime) (l : WorkflowLimits) (actor : String) where
  open rt use {World}

  -- What a step leaves of the variables: the evidence, and the cursor does not go back.
  abbrev Stays : Progress → Progress → Type 0
  Stays st d = (d.evidence ≡ st.evidence) × (st.cursor.seq ≤ d.cursor.seq)

  abbrev AfterStep : (Progress → Type 0) → World × Done x rt l actor → Type 0
  AfterStep P (w, none) = Unit
  AfterStep P (w, some (err e)) = Unit
  AfterStep P (w, some (ok (st, capture))) = P st

  expect_Stays :
      (w : World) (st : Progress) (refused : Bool) (e : WorkflowError) (o : Done x rt l actor)
      → OnDone x rt l actor (Keeps st) o
      → AfterStep (Stays st) (w, if refused then some (err e) else o)
  expect_Stays w st true e o h = tt
  expect_Stays w st false e none h = tt
  expect_Stays w st false e (some (err error)) h = tt
  expect_Stays w st false e (some (ok (d, capture))) h = ground (arith, h)

  refused_or :
      (P : Progress → Type 0) (w : World) (refused : Bool) (e : WorkflowError)
      (o : World × Done x rt l actor)
      → AfterStep P o
      → AfterStep P (if refused then (w, some (err e)) else o)
  refused_or P w true e o h = tt
  refused_or P w false e o h = h

  leased-Stays :
      (st : Progress) (o : World × Result LeaseReceipt WorkflowError)
      → AfterStep (Stays st) (leased x rt l actor st o)
  leased-Stays st (w, err e) = tt
  leased-Stays st (w, ok receipt) = ground arith

  acted-Stays :
      {A : Type 0} (st : Progress) (o : World × Result A WorkflowError)
      → AfterStep (Stays st) (acted x rt l actor st o)
  acted-Stays st (w, err e) = tt
  acted-Stays st (w, ok receipt) = ground arith

  send_decoded-Stays :
      (w : World) (st : Progress) (r : Result (List ℕ) WorkflowError)
      → AfterStep (Stays st) (send_decoded x rt l actor w st r)
  send_decoded-Stays w st (err e) = tt
  send_decoded-Stays w st (ok bytes) = acted-Stays st _

  perform-Stays :
      (w : World) (st : Progress) (t : Turn) (s : WorkflowStep)
      → AfterStep (Stays st) (perform x rt l actor w st t s)
  unfolding perform
  perform-Stays w st t lease =
      refused_or (Stays st) w (not st.auth.can_write) WorkflowError.write_denied _
        (leased-Stays st _)
  perform-Stays w st t (send bytes) =
      refused_or (Stays st) w (not st.auth.can_write || not (is_some st.auth.lease_token))
        WorkflowError.write_denied _ (send_decoded-Stays w st (decode x bytes))
  perform-Stays w st t (expect pattern timeout_ms capture) =
      expect_Stays w st (not st.auth.can_read) WorkflowError.read_denied _
        (expect_decoded-Keeps x rt l actor st t capture (decode x pattern))
  perform-Stays w st t (assert a) = ground arith
  perform-Stays w st t (wait ms) = ground arith
  perform-Stays w st t (control name value) =
      refused_or (Stays st) w (not st.auth.can_control || not (is_some st.auth.lease_token))
        WorkflowError.control_denied _ (acted-Stays st _)

  abbrev AfterSteps : (Progress → Type 0) → World × Option (Result Progress WorkflowError) → Type 0
  AfterSteps P (w, none) = Unit
  AfterSteps P (w, some (err e)) = Unit
  AfterSteps P (w, some (ok st)) = P st

  -- The variables behind a step, with its record.
  abbrev HasRecord : ℕ → WorkflowStep → Progress → Progress → Type 0
  HasRecord index s st d =
      (e : StepEvidence) × (d.evidence ≡ st.evidence ++ e ∷ [])
      × IsRecord index s st.cursor.seq d.cursor.seq e
      × (length d.evidence ≤ l.max_evidence_items)

  -- The guard of `push_evidence`.
  guarded_HasRecord :
      (st d : Progress) (index : ℕ) (s : WorkflowStep) (w : World) (e : StepEvidence) (full : Bool)
      → (d.evidence ≡ st.evidence)
      → IsRecord index s st.cursor.seq d.cursor.seq e
      → leb l.max_evidence_items (length d.evidence) ≡ full
      → AfterSteps (HasRecord index s st) (
        w,
        some (do
          guard (not full) WorkflowError.evidence_limit
          ok (record d { evidence = d.evidence ++ e ∷ [] })),
      )
  guarded_HasRecord st d index s w e true same r test = tt
  guarded_HasRecord st d index s w e false same r test =
      (e, ap (λ z. z ++ e ∷ []) same, r, ground (arith, test, length-append d.evidence (e ∷ [])))

  performed-HasRecord :
      (st : Progress) (index : ℕ) (s : WorkflowStep) (o : World × Done x rt l actor)
      → AfterStep (Stays st) o
      → AfterSteps (HasRecord index s st) (performed x rt l actor index s st.cursor.seq o)
  unfolding performed push_evidence
  performed-HasRecord st index s (w, none) h = tt
  performed-HasRecord st index s (w, some (err e)) h = tt
  performed-HasRecord st index s (w, some (ok (d, capture))) h =
      guarded_HasRecord st d index s w _ (leb l.max_evidence_items (length d.evidence)) h.0
        (refl, refl, refl, refl, refl, h.1) refl

  run_step-HasRecord :
      (w : World) (st : Progress) (index : ℕ) (t : Turn) (s : WorkflowStep)
      → AfterSteps (HasRecord index s st) (run_step x rt l actor w st index t s)
  unfolding run_step
  run_step-HasRecord w st index t s =
      elim (check_cancel t.is_cancelled t.elapsed l.max_duration_ms)
        as (λ z. AfterSteps (HasRecord index s st) (elim z [
          | err e ↦ (w, some (err e))
          | ok u ↦ performed x rt l actor index s st.cursor.seq (perform x rt l actor w st t s)
        ])) [
          | err e ↦ tt
          | ok u ↦
              performed-HasRecord st index s (perform x rt l actor w st t s)
                (perform-Stays w st t s)
        ]

  -- The variables behind the steps, with their records.
  abbrev HasRecords : ℕ → List WorkflowStep → Progress → Progress → Type 0
  HasRecords index steps st d =
      (records : List StepEvidence) × (d.evidence ≡ st.evidence ++ records)
      × AreRecords index st.cursor.seq steps records d.cursor.seq
      × (length d.evidence ≤ l.max_evidence_items)

  AfterSteps-map :
      (P Q : Progress → Type 0) (o : World × Option (Result Progress WorkflowError))
      → AfterSteps P o
      → ((d : Progress) → P d → Q d)
      → AfterSteps Q o
  AfterSteps-map P Q (w, none) h k = tt
  AfterSteps-map P Q (w, some (err e)) h k = tt
  AfterSteps-map P Q (w, some (ok d)) h k = k d h

  proceed-AfterSteps :
      (P Q : Progress → Type 0) (o : World × Option (Result Progress WorkflowError))
      (next : World → Progress → World × Option (Result Progress WorkflowError))
      → AfterSteps P o
      → ((w : World) (d : Progress) → P d → AfterSteps Q (next w d))
      → AfterSteps Q (proceed x rt l actor o next)
  proceed-AfterSteps P Q (w, none) next h k = tt
  proceed-AfterSteps P Q (w, some (err e)) next h k = tt
  proceed-AfterSteps P Q (w, some (ok d)) next h k = k w d h

  both_records :
      (index : ℕ) (s : WorkflowStep) (steps : List WorkflowStep) (st mid d : Progress)
      → HasRecord index s st mid
      → HasRecords (suc index) steps mid d
      → HasRecords index (s ∷ steps) st d
  both_records index s steps st mid d (e, one, is, fits) (records, more, are, still) = (
    e ∷ records,
    more ∙ (ap (λ z. z ++ records) one ∙ append_assoc st.evidence (e ∷ []) records),
    (mid.cursor.seq, is, are),
    still,
  )

  run_steps-HasRecords :
      (w : World) (st : Progress) (index : ℕ) (turns : ℕ → Turn) (steps : List WorkflowStep)
      → length st.evidence ≤ l.max_evidence_items
      → AfterSteps (HasRecords index steps st) (run_steps x rt l actor w st index turns steps)
  unfolding run_steps
  run_steps-HasRecords w st index turns [] fits = ([], sym (append-nil st.evidence), refl, fits)
  run_steps-HasRecords w st index turns (s ∷ steps) fits =
      proceed-AfterSteps (HasRecord index s st) (HasRecords index (s ∷ steps) st)
        (run_step x rt l actor w st index (turns index) s) _
        (run_step-HasRecord w st index (turns index) s)
        (λ behind mid one.
          AfterSteps-map (HasRecords (suc index) steps mid) (HasRecords index (s ∷ steps) st)
            (run_steps x rt l actor behind mid (suc index) turns steps)
            (run_steps-HasRecords behind mid (suc index) turns steps one.3)
            (λ d more. both_records index s steps st mid d one more))

module _ (x : Externals) (rt : WorkflowRuntime) (l : WorkflowLimits) where
  -- What a run that succeeds reports, from the number where it started.
  abbrev pub IsReport : String → ℕ → List WorkflowStep → WorkflowResult → Type 0
  IsReport request_id from steps result =
      (result.request_id ≡ request_id)
      × (result.status ≡ "succeeded")
      × AreRecords 0 from steps result.evidence result.cursor.seq
      × (length result.evidence ≤ l.max_evidence_items)

  abbrev OnReport : (WorkflowResult → Type 0) → Outcome x rt l → Type 0
  OnReport P (w, none) = Unit
  OnReport P (w, some (err e)) = Unit
  OnReport P (w, some (ok result)) = P result

  finished-IsReport :
      (request_id run_id : String) (from : ℕ) (steps : List WorkflowStep) (st : Progress)
      (o : rt.World × Option (Result Progress WorkflowError))
      → st.evidence ≡ []
      → st.cursor.seq ≡ from
      → AfterSteps x rt l
          ("workflow:" ^^ run_id)
          (HasRecords x rt l ("workflow:" ^^ run_id) 0 steps st)
          o
      → OnReport (IsReport request_id from steps) (finished x rt l request_id run_id o)
  unfolding finished
  finished-IsReport request_id run_id from steps st (w, none) none_yet at h = tt
  finished-IsReport request_id run_id from steps st (w, some (err e)) none_yet at h = tt
  finished-IsReport request_id run_id from steps st (w, some (ok d)) none_yet at h =
      let (records, all, are, fits) = h in
      (
        refl,
        refl,
        subst (λ z. AreRecords 0 from steps z d.cursor.seq)
            (sym (all ∙ ap (λ z. z ++ records) none_yet))
            (subst (λ z. AreRecords 0 z steps records d.cursor.seq) at are),
        fits,
      )

  refused_report :
      (P : WorkflowResult → Type 0) (w : rt.World) (refused : Bool) (e : WorkflowError)
      (o : Outcome x rt l)
      → OnReport P o
      → OnReport P (if refused then (w, some (err e)) else o)
  refused_report P w true e o h = tt
  refused_report P w false e o h = h

  run_inner-OnReport :
      (w : rt.World) (request_id : String) (d : WorkflowDefinition) (auth : WorkflowAuthorization)
      (start : Start) (turns : ℕ → Turn) (c : EvidenceCursor)
      → start.subscribed ≡ ok c
      → OnReport
          (IsReport request_id c.seq d.steps)
          (run_inner x rt l w request_id d auth start turns)
  unfolding run_inner subscribed_to
  run_inner-OnReport w request_id d auth start turns c subscribed =
      subst
        (λ z.
          OnReport (IsReport request_id c.seq d.steps)
            (subscribed_to x rt l w request_id d.steps auth start turns z))
        (sym subscribed)
        (refused_report (IsReport request_id c.seq d.steps) w
          (not (c.connection_epoch == start.initial_state.connection_epoch)) _ _
          (finished-IsReport request_id start.run_id c.seq d.steps
            (record { auth = auth; cursor = c; evidence = []; captures = 0 })
            (run_steps x rt l ("workflow:" ^^ start.run_id) w
              (record { auth = auth; cursor = c; evidence = []; captures = 0 }) 0 turns d.steps)
            refl refl
            (run_steps-HasRecords x rt l ("workflow:" ^^ start.run_id) w
              (record { auth = auth; cursor = c; evidence = []; captures = 0 }) 0 turns d.steps
              (omega arith))))

  -- A run that succeeds reports its request and one record for each step, in order, at most the
  -- maximum: the record has the step's index and name, the status ok, and the ledger numbers between
  -- which it ran, from that of the subscription to that of the final cursor without a gap.
  pub run_inner-IsReport :
      (w behind : rt.World) (request_id : String) (d : WorkflowDefinition)
      (auth : WorkflowAuthorization) (start : Start) (turns : ℕ → Turn) (c : EvidenceCursor)
      (result : WorkflowResult)
      → start.subscribed ≡ ok c
      → run_inner x rt l w request_id d auth start turns ≡ (behind, some (ok result))
      → IsReport request_id c.seq d.steps result
  run_inner-IsReport w behind request_id d auth start turns c result subscribed h =
      subst (λ z. OnReport (IsReport request_id c.seq d.steps) z) h
        (run_inner-OnReport w request_id d auth start turns c subscribed)
