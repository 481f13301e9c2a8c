-- ===== src/Step/Own.antt =====
-- internal/workflow/step.go with internal/activity/execute.go: the result of a step's workflow is
-- that of its own step.
pub mod Turns
use fleetlift.Prelude.{
  String, ◌≡◌, refl, subst, Option, none, some, List, [], ◌∷◌, ◌==◌, Bool, true, false,
  if◌then◌else◌, Bool-cases, Option-cases, inl, inr, arith,
}
use fleetlift.Model.{StepResult, is_awaiting}
use fleetlift.Engine.{
  wrap, Error, History, World, Result, ok, err, Run, StepInput, ExecuteStepInput, execute_step,
  run_step_workflow, create_pull_request,
}
use fleetlift.Activities.Box.{Host, Box, done}
use fleetlift.Activities.Execute.{execute_step as run_execute_step}
use fleetlift.Activities.Execute.Laws.{Gives, execute_step-Reports}
use fleetlift.Activities.Execute.{schema_of}
use fleetlift.Step.{
  rejection, settle, on_signal, attempts, opened, step_body, mark_failed, step_workflow,
}
use fleetlift.Step.Ends.{Outcome, waiting, returned, or_return}
use fleetlift.Step.Resume.{
  Turn, leave, pause, fail, error, block, resumed, resume_in, resume_with, resume,
  continuation_input, or_error,
}
use fleetlift.Step.Rounds.{
  Signal, approve, reject, steer, cancel, open_sandbox, preflight, ask_approval, verified, verify,
  executed, round, should_pause,
}
use fleetlift.Step.Closing.{
  finish, close_step, with_pull_request, open_pull_request, wants_pull_request, finalized_as,
  finalize_step,
}
use fleetlift.Dag.Progress.Results.{AnswersOwn}
use fleetlift.Step.Own.Turns.{
  ExecutesSteps, OwnResult, OwnTurn, OwnOutcome, finalized_own, pulled_id, round_own,
}

module _ (w : World) (runs : ExecutesSteps w) (input : StepInput) where
  abbrev id : String
  id = input.step_def.id

  finish_own :
      (out : StepResult) (h : History) → out.step_id ≡ id → OwnOutcome id (finish input out w h).0
  finish_own out h own = finalized_own id out (finalize_step input.step_run_id out w h).0 own

  pull_own :
      (s : String) (out : StepResult) (h : History)
      → out.step_id ≡ id
      → (open_pull_request input s out w h).0.step_id ≡ id
  unfolding open_pull_request
  pull_own s out h own = elim (Bool-cases (wants_pull_request input)) [
    | inl wants ↦ rw wants (pulled_id id out (w.reply _) own)
    | inr none_wanted ↦ rw none_wanted own
  ]

  close_own :
      (s : String) (out : StepResult) (h : History)
      → out.step_id ≡ id
      → OwnOutcome id (close_step input s out w h).0
  unfolding close_step
  close_own s out h own = finish_own _ _ (pull_own s out h own)

  settle_own :
      (s : String) (wait : StepResult → Run Outcome) (turn : Turn) (h : History)
      → ((out : StepResult) → out.step_id ≡ id → OwnOutcome id (wait out w h).0)
      → OwnTurn id turn
      → OwnOutcome id (settle input s wait turn w h).0
  settle_own s wait (leave out) h waits own = close_own s out h own
  settle_own s wait (pause out) h waits own = waits out own
  settle_own s wait (fail out) h waits own = finish_own out h own
  settle_own s wait (error e) h waits own = tt
  settle_own s wait block h waits own = tt

  signal_own :
      (s c : String) (out : StepResult) (again : String → Run Outcome) (h : History)
      → out.step_id ≡ id
      → ((c' : String) → OwnOutcome id (again c' w h).0)
      → (signal : Signal) → OwnOutcome id (on_signal input s c out again signal w h).0
  signal_own s c out again h own more approve = close_own s out h own
  signal_own s c out again h own more reject = finish_own (rejection input) h refl
  signal_own s c out again h own more cancel = finish_own (rejection input) h refl
  signal_own s c out again h own more (steer prompt) = more _

  attempts_own :
      (s : String) (dirs : List String) (signals : List Signal) (c : String) (h : History)
      → OwnOutcome id (attempts input s dirs signals c w h).0
  unfolding attempts
  attempts_own s dirs [] c h =
      settle_own s _ _ _ (λ out own. tt) (round_own w runs input s dirs c h)
  attempts_own s dirs (signal ∷ signals) c h =
      settle_own s _ _ _
        (λ out own.
          signal_own s c out (attempts input s dirs signals) _ own
            (λ c'. attempts_own s dirs signals c' _) signal)
        (round_own w runs input s dirs c h)

  or_return_own :
      {A : Type 0} (change : Error → Error) (r : Result A) (f : A → Run Outcome) (h : History)
      → ((a : A) → OwnOutcome id (f a w h).0)
      → OwnOutcome id (or_return change r f w h).0
  or_return_own change (ok a) f h all = all a
  or_return_own change (err e) f h all = tt

  mark_failed_own :
      (o : Outcome) (h : History) → OwnOutcome id o → OwnOutcome id (mark_failed input o w h).0
  unfolding mark_failed
  mark_failed_own waiting h own = tt
  mark_failed_own (returned (ok out) f) h own = own
  mark_failed_own (returned (err e) true) h own = tt
  mark_failed_own (returned (err e) false) h own = elim (Bool-cases (input.step_run_id == "")) [
    | inl no_run ↦ rw no_run tt
    | inr run ↦ rw run tt
  ]

  -- If each result of ExecuteStep is one that the activity has returned, `StepWorkflow` waits, returns
  -- an error, or returns a result of its own step.
  pub step_workflow-own :
      (signals : List Signal) (h : History) → OwnOutcome id (step_workflow input signals w h).0
  unfolding step_workflow step_body
  step_workflow-own signals h = mark_failed_own _ _ (
      or_return_own (wrap "provision sandbox") (open_sandbox input w h).0 _ _ λ s.
        let (dirs, h') = preflight input s w (open_sandbox input w h).1 in
        or_return_own (wrap "pre-flight") dirs (λ ds. attempts input s ds signals "") h'
          λ ds. attempts_own s ds signals "" h')
