-- ===== src/Step.antt =====
-- internal/workflow/step.go: `StepWorkflow`, the child workflow of one step. The operator's approve,
-- reject, steer and cancel signals come as a list, in the order in which the selector takes them;
-- a step that waits when the list is at its end waits for good. Timeouts, heartbeats, retries and
-- the log are Temporal's.
pub mod Ends
pub mod Resume
pub mod Rounds
pub mod Closing
pub mod Trace
pub mod Induct
pub mod Recorded
pub mod Approval
pub mod Pulls
pub mod Ending
pub mod Unattended
pub mod Own
use fleetlift.Prelude.{
  String, Bool, true, false, not, ◌&&◌, none, some, List, [], ◌∷◌, if◌then◌else◌, ◌==◌,
}
use fleetlift.Prelude.Text.{◌+++◌}
use fleetlift.Model.{StepStatus, StepResult, bare_result}
use fleetlift.Engine.{Error, Result, ok, err, wrap, Run, StepInput, complete_step_run}
use fleetlift.Engine.Monad.{◌>>=◌, ◌>>◌, pure, call}
use Ends.{Outcome, waiting, returned, or_return}
use Resume.{Turn, leave, pause, fail, error, block}
use Rounds.{Signal, approve, reject, steer, cancel, open_sandbox, preflight, round}
use Closing.{finish, close_step}

-- The output of a step that the operator rejects or cancels.
abbrev rejection : StepInput → StepResult
rejection input = bare_result input.step_def.id StepStatus.failed "rejected by user"

abbrev steered : String → StepResult → String → String
steered conversation output prompt =
    conversation +++ "\n\nPrevious attempt output:\n" +++ output.diff
    +++ "\n\nSteering instruction:\n" +++ prompt

-- Goes on from a round; `wait` is what follows when a signal is awaited.
abbrev settle : StepInput → String → (StepResult → Run Outcome) → Turn → Run Outcome
settle input sandbox wait (leave output) = close_step input sandbox output
settle input sandbox wait (pause output) = wait output
settle input sandbox wait (fail output) = finish input output
settle input sandbox wait (error e) = pure (returned (err e) false)
settle input sandbox wait block = pure waiting

-- The signal that a waiting step takes; `again` is the loop with a new conversation.
abbrev on_signal :
    StepInput → String → String → StepResult → (String → Run Outcome) → Signal → Run Outcome
on_signal input sandbox conversation output again approve = close_step input sandbox output
on_signal input sandbox conversation output again reject = finish input (rejection input)
on_signal input sandbox conversation output again cancel = finish input (rejection input)
on_signal input sandbox conversation output again (steer prompt) =
    again (steered conversation output prompt)

-- The loop of `StepWorkflow` and what follows it.
pub attempts : StepInput → String → List String → List Signal → String → Run Outcome
attempts input sandbox dirs [] conversation = do
  turn ← round input sandbox dirs conversation
  settle input sandbox (λ output. pure waiting) turn
attempts input sandbox dirs (signal ∷ signals) conversation = do
  turn ← round input sandbox dirs conversation
  settle input sandbox
      (λ output.
        on_signal input sandbox conversation output (attempts input sandbox dirs signals) signal)
      turn

-- What follows the sandbox: the pre-flight, and the loop.
abbrev pub opened : StepInput → List Signal → Result String → Run Outcome
opened input signals s = or_return (wrap "provision sandbox") s λ sandbox. do
  d ← preflight input sandbox
  or_return (wrap "pre-flight") d λ dirs. attempts input sandbox dirs signals ""

-- `StepWorkflow` without its deferred function.
pub step_body : StepInput → List Signal → Run Outcome
step_body input signals = do s ← open_sandbox input; opened input signals s

-- The deferred function: a run that failed before its record was finalised is marked as failed.
pub mark_failed : StepInput → Outcome → Run Outcome
mark_failed input (returned (err e) false) =
    if input.step_run_id == "" then pure (returned (err e) false) else do
      call (complete_step_run input.step_run_id StepStatus.failed [] "" e.text 0)
      pure (returned (err e) false)
mark_failed input outcome = pure outcome

pub step_workflow : StepInput → List Signal → Run Outcome
step_workflow input signals = do outcome ← step_body input signals; mark_failed input outcome
