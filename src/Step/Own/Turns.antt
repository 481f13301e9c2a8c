-- ===== src/Step/Own/Turns.antt =====
-- internal/workflow/step.go: the rounds of a step keep to the results of ExecuteStep, which carry the
-- step's id.
use fleetlift.Prelude.{String, ◌≡◌, refl, subst, List, ◌∷◌, Bool-cases, Option-cases, inl, inr}
use fleetlift.Model.{StepResult, is_awaiting}
use fleetlift.Engine.{
  History, World, Result, ok, err, Run, StepInput, ExecuteStepInput, execute_step,
}
use fleetlift.Activities.Box.{Host, Box, done}
use fleetlift.Activities.Execute.{execute_step as run_execute_step}
use fleetlift.Activities.Execute.Laws.{Gives, execute_step-Reports}
use fleetlift.Activities.Execute.{schema_of}
use fleetlift.Step.Ends.{Outcome, waiting, returned}
use fleetlift.Step.Resume.{
  Turn, leave, pause, fail, error, block, resumed, resume_in, resume_with, resume,
  continuation_input, or_error,
}
use fleetlift.Step.Rounds.{ask_approval, verified, verify, executed, round, should_pause}
use fleetlift.Step.Closing.{with_pull_request, finalized_as}

-- Each result of ExecuteStep is one that the activity has returned, in some sandbox.
abbrev pub ExecutesSteps : World → Type 0
ExecutesSteps w =
    (e : ExecuteStepInput) (h : History) (out : StepResult)
    → w.result (execute_step e ∷ h) ≡ ok out
    → (host : Host) × (box : Box) × ((run_execute_step e host box).0 ≡ done out)

executed_id :
    (w : World)
    → ExecutesSteps w
    → (e : ExecuteStepInput) (h : History) (out : StepResult)
    → w.result (execute_step e ∷ h) ≡ ok out
    → out.step_id ≡ e.step_input.step_def.id
executed_id w runs e h out is_ok =
    let (host, box, ran) = runs e h out is_ok in
    (subst (Gives e.step_input.step_def.id (schema_of e.step_input.step_def) host) ran
      (execute_step-Reports e host box)).0

module _ (id : String) where
  abbrev pub OwnResult : Result StepResult → Type 0
  OwnResult (ok out) = out.step_id ≡ id
  OwnResult (err e) = Unit

  abbrev pub OwnTurn : Turn → Type 0
  OwnTurn (leave out) = out.step_id ≡ id
  OwnTurn (pause out) = out.step_id ≡ id
  OwnTurn (fail out) = out.step_id ≡ id
  OwnTurn (error e) = Unit
  OwnTurn block = Unit

  -- The workflow waits, returns an error, or returns a result of this step.
  abbrev pub OwnOutcome : Outcome → Type 0
  OwnOutcome waiting = Unit
  OwnOutcome (returned r f) = OwnResult r

  resumed_own : (r : Result StepResult) → OwnResult r → OwnTurn (resumed r)
  resumed_own (err e) own = tt
  resumed_own (ok out) own = elim (Bool-cases (is_awaiting out.status)) [
    | inl nested ↦ rw nested tt
    | inr final ↦ rw final own
  ]

  pub finalized_own :
      (out : StepResult) (r : Result String) → out.step_id ≡ id → OwnOutcome (finalized_as out r)
  finalized_own out (ok s) own = own
  finalized_own out (err e) own = tt

  pub pulled_id :
      (out : StepResult) (r : Result String)
      → out.step_id ≡ id
      → (with_pull_request out r).step_id ≡ id
  pulled_id out (ok s) own = own
  pulled_id out (err e) own = own

module _ (w : World) (runs : ExecutesSteps w) (input : StepInput) where
  abbrev id : String
  id = input.step_def.id

  answer_own :
      (e : ExecuteStepInput) (h : History)
      → OwnResult e.step_input.step_def.id (w.result (execute_step e ∷ h))
  answer_own e h = go (w.result (execute_step e ∷ h)) refl
    where
      go :
          (r : Result StepResult)
          → w.result (execute_step e ∷ h) ≡ r
          → OwnResult e.step_input.step_def.id r
      go (ok out) is_ok = executed_id w runs e h out is_ok
      go (err e') is_err = tt

  or_error_own :
      {A : Type 0} (prefix : String) (r : Result A) (f : A → Run Turn) (h : History)
      → ((a : A) → OwnTurn id (f a w h).0)
      → OwnTurn id (or_error prefix r f w h).0
  or_error_own prefix (ok a) f h all = all a
  or_error_own prefix (err e) f h all = tt

  continued_own :
      (dirs : List String) (out : StepResult) (answer : String) (h : History)
      → OwnTurn id (resume_with input dirs out answer w h).0
  continued_own dirs out answer h =
      or_error_own "create continuation step_run" (w.reply _) _ _ λ run.
        or_error_own "provision continuation sandbox" (w.reply _)
          (resume_in input (continuation_input input run) dirs out answer) _
          λ s. resumed_own id _ (answer_own _ _)

  resume_own :
      (dirs : List String) (out : StepResult) (h : History)
      → OwnTurn id (resume input dirs out w h).0
  unfolding resume
  resume_own dirs out h = elim (Option-cases (w.answer h)) [
    | inl never ↦ rw never tt
    | inr given ↦ rw given.1 (continued_own dirs out given.0 h)
  ]

  approval_own :
      (out : StepResult) (h : History)
      → out.step_id ≡ id
      → OwnTurn id (ask_approval input out w h).0
  unfolding ask_approval
  approval_own out h own = elim (Bool-cases (should_pause input.step_def out)) [
    | inl pauses ↦
        rw pauses (or_error_own "set step status to awaiting_input" (w.reply _) _ _ (λ u. own))
    | inr leaves ↦ rw leaves own
  ]

  verified_own :
      (out : StepResult) (r : Result String) (h : History)
      → out.step_id ≡ id
      → OwnTurn id (verified input out r w h).0
  verified_own out (ok s) h own = approval_own out h own
  verified_own out (err e) h own = refl

  verify_own :
      (s : String) (out : StepResult) (h : History)
      → out.step_id ≡ id
      → OwnTurn id (verify input s out w h).0
  unfolding verify
  verify_own s out h own = elim (Option-cases input.resolved_opts.verifiers) [
    | inl none_set ↦ rw none_set (approval_own out h own)
    | inr set ↦ rw set.1 (verified_own out (w.reply _) _ own)
  ]

  executed_own :
      (s : String) (dirs : List String) (r : Result StepResult) (h : History)
      → OwnResult id r
      → OwnTurn id (executed input s dirs r w h).0
  executed_own s dirs (err e) h own = tt
  executed_own s dirs (ok out) h own = elim (Bool-cases (is_awaiting out.status)) [
    | inl waits ↦ rw waits (resume_own dirs out h)
    | inr goes_on ↦ rw goes_on (verify_own s out h own)
  ]

  pub round_own :
      (s : String) (dirs : List String) (c : String) (h : History)
      → OwnTurn id (round input s dirs c w h).0
  unfolding round
  round_own s dirs c h = executed_own s dirs _ _ (answer_own _ h)
