-- ===== src/Step/Closing.antt =====
-- internal/workflow/step.go: what `StepWorkflow` does once the result stands: the pull request, the
-- sandbox, and the record of the step run.
use fleetlift.Prelude.{String, Bool, true, false, ◌&&◌, none, some, if◌then◌else◌, ◌==◌}
use fleetlift.Prelude.Text.{◌+++◌}
use fleetlift.Model.{StepResult}
use fleetlift.Engine.{
  Result, ok, err, wrap, Run, StepInput, complete_step_run, create_pull_request, cleanup_sandbox,
}
use fleetlift.Engine.Monad.{◌>>=◌, ◌>>◌, pure, call}
use fleetlift.Step.Ends.{Outcome, returned}

abbrev pub wrapped : String → Result String → Result String
wrapped prefix (ok s) = ok s
wrapped prefix (err e) = err (wrap prefix e)

-- `finalizeStep`; its result is the error, if any.
unfoldable pub finalize_step : String → StepResult → Run (Result String)
finalize_step step_run_id output = if step_run_id == "" then pure (ok "") else do
  r ← call (
      complete_step_run step_run_id output.status output.output output.diff output.error
        output.cost_usd)
  pure (wrapped ("finalize step run " +++ step_run_id) r)

-- What the answer to CreatePullRequest makes of the output.
abbrev pub with_pull_request : StepResult → Result String → StepResult
with_pull_request output (ok url) = record output { pr_url = url }
with_pull_request output (err e) = record output {
  error = "step completed but PR creation failed: " +++ e.text;
}

abbrev pub wants_pull_request : StepInput → Bool
wants_pull_request input =
    input.step_def.mode == "transform"
    && elim input.step_def.pull_request [ none ↦ false | some p ↦ true ]

unfoldable pub open_pull_request : StepInput → String → StepResult → Run StepResult
open_pull_request input sandbox output =
    if wants_pull_request input
    then (do r ← call (create_pull_request sandbox input); pure (with_pull_request output r))
    else pure output

-- A step cleans up the sandbox that it provisioned itself.
unfoldable pub close_sandbox : StepInput → String → Run (Unit {0})
close_sandbox input sandbox =
    if input.step_def.sandbox_group == "" && input.sandbox_id == ""
    then (do call (cleanup_sandbox sandbox); pure tt)
    else pure tt

abbrev pub finalized_as : StepResult → Result String → Outcome
finalized_as output (ok s) = returned (ok output) true
finalized_as output (err e) = returned (err e) true

-- `stepRunFinalized = true; if fErr := finalizeStep(...); fErr != nil {...}; return output, nil`
abbrev pub finish : StepInput → StepResult → Run Outcome
finish input output = do r ← finalize_step input.step_run_id output; pure (finalized_as output r)

unfoldable pub close_step : StepInput → String → StepResult → Run Outcome
close_step input sandbox output = do
  output' ← open_pull_request input sandbox output
  close_sandbox input sandbox
  finish input output'
