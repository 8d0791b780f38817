-- ===== src/Workflow/Repeating.antt =====
-- src/workflow/mod.rs: a request that has completed is not run again.
use oh_myserial.Common.{
  ℕ, ◌≡◌, refl, ap, Bool, false, ◌||◌, List, [], ◌∷◌, Option, none, some, String, Result, ok, err,
  arith, eq_iff, ltb, subst,
}
use oh_myserial.Common.Text.{byte_len, has_control, is_blank}
use oh_myserial.Common.Map.{lookup, insert}
use oh_myserial.Ledger.Schema.{Externals}
use oh_myserial.Workflow.{WorkflowDefinition, WorkflowLimits, WorkflowError, validate_definition}
use oh_myserial.Workflow.Run.{WorkflowAuthorization, WorkflowRuntime, Turn, WorkflowResult}
use oh_myserial.Workflow.Runner.{
  Start, WorkflowRunner, Outcome, run_inner, begin_run, end_run, ended, started, run,
}

lookup-insert_self {ℓ} :
    {V : Type ℓ} (key : String) (value : V) (m : List (String × V))
    → lookup key (insert key value m) ≡ some value
unfolding lookup insert
lookup-insert_self key value [] = ground (arith, eq_iff key key)
lookup-insert_self key value ((name, other) ∷ m) =
    ground (arith, eq_iff key key, eq_iff name key, lookup-insert_self key value m)

module _ (x : Externals) (rt : WorkflowRuntime) (l : WorkflowLimits) where
  open rt use {World}

  abbrev is_bad_request : String → Bool
  is_bad_request id = is_blank id || ltb 128 (byte_len id) || has_control id

  begin_run-valid :
      (r b : WorkflowRunner) (id : String) (d : WorkflowDefinition)
      (previous : Option WorkflowResult)
      → begin_run x rt l r id d ≡ ok (b, previous)
      → is_bad_request id ≡ false
  unfolding begin_run
  begin_run-valid r b id d previous h = ground (arith, h)

  begin_run-previous :
      (r b : WorkflowRunner) (id : String) (d : WorkflowDefinition) (result : WorkflowResult)
      → begin_run x rt l r id d ≡ ok (b, some result)
      → lookup id b.completed ≡ some result
  unfolding begin_run
  begin_run-previous r b id d result h = ground (arith, h)

  begin_run-known :
      (r : WorkflowRunner) (id : String) (d : WorkflowDefinition) (result : WorkflowResult)
      → is_bad_request id ≡ false
      → validate_definition x d l ≡ ok tt
      → lookup id r.completed ≡ some result
      → begin_run x rt l r id d ≡ ok (r, some result)
  unfolding begin_run
  begin_run-known r id d result good valid known = ground (arith, good, valid, known)

  -- What a run that succeeded left.
  abbrev IsKnown :
      String → WorkflowRunner × World × Option (Result WorkflowResult WorkflowError) → Type 0
  IsKnown id (r, w, none) = Unit
  IsKnown id (r, w, some (err e)) = Unit
  IsKnown id (r, w, some (ok result)) =
      (is_bad_request id ≡ false) × (lookup id r.completed ≡ some result)

  ended-IsKnown :
      (r : WorkflowRunner) (id : String) (o : Outcome x rt l)
      → is_bad_request id ≡ false
      → IsKnown id (ended x rt l r id o)
  unfolding ended end_run
  ended-IsKnown r id (w, none) good = tt
  ended-IsKnown r id (w, some (err e)) good = tt
  ended-IsKnown r id (w, some (ok result)) good = (good, lookup-insert_self id result r.completed)

  started-IsKnown :
      (w : World) (r : WorkflowRunner) (id : String) (d : WorkflowDefinition)
      (auth : WorkflowAuthorization) (start : Start) (turns : ℕ → Turn)
      (others : WorkflowRunner → WorkflowRunner)
      (begun : Result (WorkflowRunner × Option WorkflowResult) WorkflowError)
      → begin_run x rt l r id d ≡ begun
      → IsKnown id (started x rt l w r id d auth start turns others begun)
  unfolding started
  started-IsKnown w r id d auth start turns others (err e) h = tt
  started-IsKnown w r id d auth start turns others (ok (b, some previous)) h =
      (begin_run-valid r b id d (some previous) h, begin_run-previous r b id d previous h)
  started-IsKnown w r id d auth start turns others (ok (b, none)) h =
      ended-IsKnown (others b) id (run_inner x rt l w id d auth start turns)
        (begin_run-valid r b id d none h)

  -- When a run of a request has succeeded, another run of the same request id on the runner that it
  -- left, with any definition that is valid, any permissions and any surroundings, answers the same
  -- result and changes neither the runner nor the world.
  pub run_again :
      (w1 w2 w3 : World) (r1 r2 : WorkflowRunner) (id : String) (d1 d2 : WorkflowDefinition)
      (auth1 auth2 : WorkflowAuthorization) (start1 start2 : Start) (turns1 turns2 : ℕ → Turn)
      (others1 others2 : WorkflowRunner → WorkflowRunner) (result : WorkflowResult)
      → run x rt l w1 r1 id d1 auth1 start1 turns1 others1 ≡ (r2, w2, some (ok result))
      → validate_definition x d2 l ≡ ok tt
      → run x rt l w3 r2 id d2 auth2 start2 turns2 others2 ≡ (r2, w3, some (ok result))
  unfolding run started
  run_again w1 w2 w3 r1 r2 id d1 d2 auth1 auth2 start1 start2 turns1 turns2 others1 others2 result
        ran valid =
      let known =
        subst (λ z. IsKnown id z) ran
          (started-IsKnown w1 r1 id d1 auth1 start1 turns1 others1 (begin_run x rt l r1 id d1)
            refl) in
      ap (λ z. started x rt l w3 r2 id d2 auth2 start2 turns2 others2 z)
        (begin_run-known r2 id d2 result known.0 valid known.1)
