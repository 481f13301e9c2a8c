-- ===== src/Dag/Steps.antt =====
-- internal/workflow/dag.go: what `DAGWorkflow` runs for one ready step, the body of its coroutine.
-- A coroutine only reads the outputs and sandboxes and shares nothing else, so the coroutines run
-- one after the other here: whatever answers they get interleaved, some world gives them in turn.
use fleetlift.Prelude.{
  ℕ, suc, String, Bool, not, ◌&&◌, ◌||◌, Option, none, some, List, [], ◌∷◌, length, lookup, ltb,
  leb, if◌then◌else◌, ◌==◌,
}
use fleetlift.Prelude.Text.{◌+++◌, show}
use fleetlift.Model.{
  str, Map, StepStatus, is_failed, is_skipped, StepResult, StepOutput, bare_result, bare_output,
  single, StepDef, RepoRef, ActionDef, AgentProfileBody,
}
use fleetlift.Engine.{
  Result, ok, err, Run, ResolvedStepOpts, StepInput, create_step_run, execute_action,
  run_step_workflow, create_inbox_item,
}
use fleetlift.Engine.Monad.{◌>>=◌, ◌>>◌, pure, call, call_result, call_action}
use fleetlift.Step.Closing.{finalize_step}
use fleetlift.Dag.Data.{DagInput, Outputs, Templates}
use fleetlift.Dag.FanOut.{
  aggregate_fan_out, build_fan_out_failure_summary, failures, successes, successful,
}
use fleetlift.Dag.Resolve.{resolve_all, eval_condition, render_config}

-- The first dependency that was skipped or failed.
unfoldable pub blocking : List String → Outputs → Option String
unfolding lookup
blocking [] outputs = none
blocking (dep ∷ deps) outputs = elim (lookup dep outputs) [
  | none ↦ blocking deps outputs
  | some out ↦
      if is_skipped out.status || is_failed out.status then some dep else blocking deps outputs
]

abbrev pub failed_step : String → String → StepOutput
failed_step id error = bare_output id StepStatus.failed error

-- `executeAction`
abbrev action_result : StepDef → Result Map → StepResult
action_result step (err e) = bare_result step.id StepStatus.failed e.text
action_result step (ok output) = record (bare_result step.id StepStatus.complete "") {
  output = output;
}

abbrev pub child_result : StepDef → Result StepResult → StepResult
child_result step (err e) = bare_result step.id StepStatus.failed e.text
child_result step (ok out) = out

module _ (t : Templates) (input : DagInput) (sandboxes : List (String × String))
    (outputs : Outputs) where
  -- The action with its configuration rendered, or the failure to render it.
  abbrev pub run_action : StepDef → ActionDef → String → Result Map → Run StepOutput
  run_action step action step_run_id (err e) = do
    let failed = bare_result step.id StepStatus.failed e.text
    finalize_step step_run_id failed
    pure (single failed)
  run_action step action step_run_id (ok config) = do
    r ← call_action (execute_action step_run_id action.type config input.team_id action.credentials)
    finalize_step step_run_id (action_result step r)
    pure (single (action_result step r))

  -- What follows the record of the action's step run.
  abbrev pub started_action : StepDef → ActionDef → Result String → Run StepOutput
  started_action step action (err e) = pure (failed_step step.id ("create step run: " +++ e.text))
  started_action step action (ok step_run_id) =
      run_action step action step_run_id (render_config t input.parameters outputs action.config)

  unfoldable pub action_step : StepDef → ActionDef → Run StepOutput
  action_step step action = do
    r ← call (create_step_run input.run_id step.id step.title "" [])
    started_action step action r

  -- `sandboxes[step.SandboxGroup]`
  abbrev pub group_sandbox : StepDef → String
  group_sandbox step = elim (lookup step.sandbox_group sandboxes) [ none ↦ "" | some s ↦ s ]

  abbrev pub child_input : StepDef → ResolvedStepOpts → String → StepInput
  child_input step opts step_run_id = record {
    run_id = input.run_id;
    step_run_id = step_run_id;
    team_id = input.team_id;
    workflow_template_id = input.workflow_template_id;
    step_def = step;
    resolved_opts = opts;
    sandbox_id = group_sandbox step;
    model_override = input.model_override;
    triggered_by = input.triggered_by;
  }

  abbrev pub repo_map : RepoRef → Map
  repo_map repo = ("ref", str repo.ref) ∷ ("repo_url", str repo.url) ∷ []

  abbrev pub single_map : List RepoRef → Map
  single_map [] = []
  single_map (repo ∷ repos) = repo_map repo

  abbrev pub started_child : StepDef → ResolvedStepOpts → String → Result String → Run StepResult
  started_child step opts id (err e) =
      pure (bare_result step.id StepStatus.failed ("create step run: " +++ e.text))
  started_child step opts id (ok step_run_id) = do
    out ← call_result (run_step_workflow id (child_input step opts step_run_id))
    pure (child_result step out)

  -- A record for the step run under `name`, and its child workflow.
  unfoldable pub run_child : StepDef → ResolvedStepOpts → String → Map → Run StepResult
  run_child step opts name map = do
    let id = input.run_id +++ "-" +++ name
    r ← call (create_step_run input.run_id name step.title id map)
    started_child step opts id r

  unfoldable pub single_step : StepDef → ResolvedStepOpts → Run StepOutput
  single_step step opts = do
    out ← run_child step opts step.id (single_map opts.repos)
    pure (single out)

  -- Fan-out children cannot be approved.
  abbrev pub without_approval : StepDef → StepDef
  without_approval step =
      if not (step.approval_policy == "") && not (step.approval_policy == "never")
      then record step { approval_policy = "never" }
      else step

  unfoldable pub fan_children :
      StepDef → ResolvedStepOpts → ℕ → List RepoRef → Run (List (Option StepResult))
  fan_children step opts j [] = pure []
  fan_children step opts j (repo ∷ repos) = do
    out ←
        run_child step (record opts { repos = repo ∷ [] }) (step.id +++ "-" +++ show j)
          (repo_map repo)
    rest ← fan_children step opts (suc j) repos
    pure (some out ∷ rest)

  abbrev read_fan_out : Run (Option String)
  read_fan_out w h = (w.fan_out h, h)

  -- What the operator's decision, or none within 48 hours, makes of a partial failure.
  unfoldable pub decided : StepDef → List (Option StepResult) → String → Option String → StepOutput
  decided step results ratio none = failed_step step.id (
      "fan-out partial failure timed out after 48h waiting for operator decision (" +++ ratio
      +++ " repos failed)")
  decided step results ratio (some action) =
      if action == "terminate"
      then failed_step step.id
          ("operator terminated after partial failure (" +++ ratio +++ " repos failed)")
      else aggregate_fan_out step.id (successful results)

  unfoldable pub partial_failure : StepDef → ℕ → List (Option StepResult) → Run StepOutput
  partial_failure step count results = do
    let ratio = show (failures results) +++ "/" +++ show count
    call (
        create_inbox_item input.team_id input.run_id "fan_out_partial_failure"
          ("Fan-out partial failure: " +++ step.id +++ " (" +++ ratio +++ " repos failed)")
          (build_fan_out_failure_summary results) "" step.id)
    action ← read_fan_out
    pure (decided step results ratio action)

  abbrev pub is_partial : List (Option StepResult) → Bool
  is_partial results = ltb 0 (successes results) && ltb 0 (failures results)

  unfoldable pub fan_out_step : StepDef → ResolvedStepOpts → Run StepOutput
  fan_out_step step opts = do
    results ← fan_children (without_approval step) opts 0 opts.repos
    if is_partial results
        then partial_failure step (length opts.repos) results
        else pure (aggregate_fan_out step.id results)

  abbrev pub agent_step : StepDef → ResolvedStepOpts → Run StepOutput
  agent_step step opts =
      if leb (length opts.repos) 1 then single_step step opts else fan_out_step step opts

  abbrev pub kind_step : StepDef → ResolvedStepOpts → Run StepOutput
  kind_step step opts = elim step.action [
    | none ↦ agent_step step opts
    | some action ↦ action_step step action
  ]

  -- A step whose dependencies let it run.
  abbrev pub resolved_step :
      Option AgentProfileBody → StepDef → Result ResolvedStepOpts → Run StepOutput
  resolved_step profile step (err e) = pure (failed_step step.id e.text)
  resolved_step profile step (ok opts) =
      if eval_condition t input.parameters outputs step.condition
      then kind_step step (record opts { effective_profile = profile })
      else pure (bare_output step.id StepStatus.skipped "")

  unfoldable pub start_step : Option AgentProfileBody → StepDef → Run StepOutput
  start_step profile step = resolved_step profile step (resolve_all t input.parameters outputs step)

  -- The dependency that holds a step back; an optional step is not held back.
  abbrev pub held_by : StepDef → Option String
  held_by step = if step.optional then none else blocking step.depends_on outputs

  abbrev pub unless_held : Option AgentProfileBody → StepDef → Option String → Run StepOutput
  unless_held profile step (some dep) = pure (
      bare_output step.id StepStatus.skipped
        ("skipped: dependency " +++ dep +++ " did not complete successfully"))
  unless_held profile step none = start_step profile step

  unfoldable pub run_step : Option AgentProfileBody → StepDef → Run StepOutput
  run_step profile step = unless_held profile step (held_by step)

  unfoldable pub run_steps :
      Option AgentProfileBody → List StepDef → Run (List (StepDef × StepOutput))
  run_steps profile [] = pure []
  run_steps profile (step ∷ steps) = do
    out ← run_step profile step
    rest ← run_steps profile steps
    pure ((step, out) ∷ rest)
