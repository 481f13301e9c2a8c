-- ===== src/Step/Resume.antt =====
-- internal/workflow/step.go: what follows when the agent asks for human input: wait for the answer,
-- and execute once more in a fresh sandbox.
use fleetlift.Prelude.{String, Option, none, some, List, [], ◌∷◌, if◌then◌else◌, ◌==◌}
use fleetlift.Prelude.Text.{◌+++◌}
use fleetlift.Model.{is_awaiting, StepResult}
use fleetlift.Engine.{
  Error, Result, ok, err, wrap, failure, Run, StepInput, provision_sandbox, execute_step,
  cleanup_sandbox, create_continuation_step_run, cleanup_checkpoint_branch,
}
use fleetlift.Engine.Monad.{◌>>=◌, ◌>>◌, pure, call, call_result}

-- What a round comes to: the loop is left with an output, a signal is awaited, the workflow
-- returns an error or a failed output, or it waits for an answer for good.
pub data Turn : Type 0 where
  leave pause fail : StepResult → Turn
  error : Error → Turn
  block : Turn

-- `if err != nil { return nil, fmt.Errorf("prefix: %w", err) }`
abbrev pub or_error : {A : Type 0} → String → Result A → (A → Run Turn) → Run Turn
or_error prefix (ok a) f = f a
or_error prefix (err e) f = pure (error (wrap prefix e))

abbrev read_answer : Run (Option String)
read_answer w h = (w.answer h, h)

-- The first text of a list, or the empty one.
abbrev first : List String → String
first [] = ""
first (x ∷ xs) = x

abbrev cleanup_checkpoint : StepInput → StepResult → Run (Unit {0})
cleanup_checkpoint input output =
    if output.checkpoint_branch == "" then pure tt else elim input.resolved_opts.repos [
      | [] ↦ pure tt
      | repo ∷ repos ↦ do
        call (
            cleanup_checkpoint_branch (record {
              repo_url = repo.url;
              branch = output.checkpoint_branch;
              credential_name = first input.resolved_opts.credentials;
              team_id = input.team_id;
            }))
        pure tt
    ]

abbrev pub resumed : Result StepResult → Turn
resumed (err e) = error (wrap "continuation step execution" e)
resumed (ok output) =
    if is_awaiting output.status
    then error (
        failure
          "nested request_input is not supported: continuation steps cannot request additional human input")
    else leave output

abbrev pub continuation_input : StepInput → String → StepInput
continuation_input input step_run_id = record input { step_run_id = step_run_id; sandbox_id = "" }

abbrev pub resume_in : StepInput → StepInput → List String → StepResult → String → String → Run Turn
resume_in input continued dirs output answer sandbox = do
  r ← call_result (
      execute_step (record {
        step_input = continued;
        sandbox_id = sandbox;
        prompt = input.resolved_opts.prompt;
        conversation_history = "";
        continuation_context = some (record {
          inbox_item_id = output.inbox_item_id;
          question = output.question;
          human_answer = answer;
          checkpoint_branch = output.checkpoint_branch;
          state_artifact_id = output.state_artifact_id;
        });
        eval_plugin_dirs = dirs;
      }))
  call (cleanup_sandbox sandbox)
  cleanup_checkpoint input output
  pure (resumed r)

abbrev pub resume_with : StepInput → List String → StepResult → String → Run Turn
resume_with input dirs output answer = do
  r ← call (
      create_continuation_step_run (record {
        run_id = input.run_id;
        step_id = input.step_def.id +++ "-resume-1";
        step_title = input.step_def.title +++ " (resumed)";
        temporal_workflow_id = input.run_id +++ "-" +++ input.step_def.id +++ "-resume-1";
        parent_step_run_id = input.step_run_id;
        checkpoint_branch = output.checkpoint_branch;
        checkpoint_artifact_id = output.state_artifact_id;
      }))
  or_error "create continuation step_run" r λ step_run_id. do
    p ← call (provision_sandbox (continuation_input input step_run_id))
    or_error "provision continuation sandbox" p
        (resume_in input (continuation_input input step_run_id) dirs output answer)

unfoldable pub resume : StepInput → List String → StepResult → Run Turn
resume input dirs output = do
  a ← read_answer
  elim a [ none ↦ pure block | some answer ↦ resume_with input dirs output answer ]
