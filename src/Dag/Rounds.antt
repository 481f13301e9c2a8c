-- ===== src/Dag/Rounds.antt =====
-- internal/workflow/dag.go: the loop of `DAGWorkflow`. Each round provisions the sandboxes of new
-- groups, runs the ready steps, and collects their results.
use fleetlift.Prelude.{
  ℕ, zero, suc, String, Bool, true, false, not, ◌&&◌, ◌||◌, Option, none, some, List, [], ◌∷◌, ◌++◌,
  length, lookup, insert, if◌then◌else◌, ◌==◌,
}
use fleetlift.Prelude.Text.{◌+++◌}
use fleetlift.Model.{is_failed, StepOutput, StepDef, no_step, AgentProfileBody}
use fleetlift.Engine.{
  Result, ok, err, Run, ResolvedStepOpts, StepInput, provision_sandbox, create_inbox_item,
}
use fleetlift.Engine.Monad.{◌>>=◌, pure, call, is_canceled}
use fleetlift.Dag.Data.{DagInput, Templates, State}
use fleetlift.Dag.Ready.{remove, find_ready, is_optional, skip_downstream}
use fleetlift.Dag.Exit.{
  Exit, done, out_of_fuel, stopped, Reason, canceled_run, deadlock, no_sandbox, steps_failed,
}
use fleetlift.Dag.Steps.{run_steps}

abbrev pub text_or_empty : Option String → String
text_or_empty none = ""
text_or_empty (some s) = s

-- What the collection of one result does to the state before failures are dealt with.
abbrev pub collect_one : StepOutput → State → State
collect_one r st = record st {
  outputs = insert r.step_id r st.outputs;
  pending = remove r.step_id st.pending;
}

-- What follows the collection: stop on errors, or go on.
abbrev pub after_collect : (State → Run (Exit × State)) → State × List String → Run (Exit × State)
after_collect again (st, []) = again st
after_collect again (st, e ∷ es) = pure (stopped (steps_failed (e ∷ es)), st)

-- `len(pending) > 0`
abbrev pub while_pending : List (String × StepDef) → State → Run (Exit × State) → Run (Exit × State)
while_pending [] st next = pure (done, st)
while_pending (p ∷ ps) st next = next

abbrev pub unless_canceled : State → Run (Exit × State) → Run (Exit × State)
unless_canceled st next = do c ← is_canceled; if c then pure (stopped canceled_run, st) else next

module _ (input : DagInput) where
  abbrev group_image : String → String
  group_image group = text_or_empty (lookup group input.workflow_def.sandbox_groups)

  abbrev group_opts : StepDef → ResolvedStepOpts
  group_opts step = record {
    prompt = "";
    repos = [];
    verifiers = none;
    credentials = elim step.execution [ none ↦ [] | some e ↦ e.credentials ];
    pr_config = none;
    agent = elim step.execution [ none ↦ "" | some e ↦ e.agent ];
    max_turns = 0;
    sandbox_group_image = group_image step.sandbox_group;
    sandbox_spec = step.sandbox;
    effective_profile = none;
    eval_plugin_urls = [];
  }

  abbrev pub group_input : StepDef → StepInput
  group_input step = record {
    run_id = input.run_id;
    step_run_id = "";
    team_id = input.team_id;
    workflow_template_id = "";
    step_def = no_step;
    resolved_opts = group_opts step;
    sandbox_id = "";
    model_override = "";
    triggered_by = input.triggered_by;
  }

  abbrev pub needs_sandbox : StepDef → List (String × String) → Bool
  needs_sandbox step sandboxes =
      not (step.sandbox_group == "") && text_or_empty (lookup step.sandbox_group sandboxes) == ""

  -- What follows a provisioning, with the rest of the loop.
  abbrev pub group_ready :
      (List (String × String) → Run (Option Reason × List (String × String)))
      → StepDef
      → List (String × String)
      → Result String
      → Run (Option Reason × List (String × String))
  group_ready rest step sandboxes (err e) = pure (some (no_sandbox step.sandbox_group e), sandboxes)
  group_ready rest step sandboxes (ok id) = rest (insert step.sandbox_group id sandboxes)

  -- The sandboxes of the ready steps' groups; those provisioned before an error are kept.
  unfoldable pub provision_groups :
      List StepDef → List (String × String) → Run (Option Reason × List (String × String))
  unfolding lookup
  provision_groups [] sandboxes = pure (none, sandboxes)
  provision_groups (step ∷ steps) sandboxes =
      if needs_sandbox step sandboxes
      then (do
        r ← call (provision_sandbox (group_input step))
        group_ready (provision_groups steps) step sandboxes r)
      else provision_groups steps sandboxes

  abbrev or_text : String → String → String
  or_text s other = if s == "" then other else s

  abbrev pub failure_message : StepOutput → String
  failure_message r =
      if r.error == ""
      then "step " +++ r.step_id +++ " failed"
      else "step " +++ r.step_id +++ " failed: " +++ r.error

  abbrev is_sent : Result String → Bool
  is_sent (ok s) = true
  is_sent (err e) = false

  abbrev pub fails_run : StepOutput → Bool
  fails_run r = is_failed r.status && not (is_optional input.workflow_def.steps r.step_id)

  -- A failure that counts: the operator is told, and what depends on the step is skipped.
  abbrev pub report_failure : StepDef → StepOutput → State → Run State
  report_failure step r st = do
    sent ← call (
        create_inbox_item input.team_id input.run_id "step_failed"
          ("Step failed: " +++ or_text step.title r.step_id)
          (or_text r.error ("step " +++ r.step_id +++ " failed")) "" r.step_id)
    pure (
        skip_downstream (length st.pending) input.workflow_def.steps input.workflow_def.steps
          r.step_id (record st { notified = st.notified || is_sent sent }))

  -- The loop over the results, with the errors so far.
  unfoldable pub collect :
      List (StepDef × StepOutput) → State → List String → Run (State × List String)
  collect [] st errors = pure (st, errors)
  collect ((step, r) ∷ rs) st errors =
      if fails_run r
      then (do
        st' ← report_failure step r (collect_one r st)
        collect rs st' (errors ++ failure_message r ∷ []))
      else collect rs (collect_one r st) errors

module _ (t : Templates) (input : DagInput) (profile : Option AgentProfileBody) where
  -- The steps are run and their results collected.
  unfoldable pub run_round :
      (State → Run (Exit × State)) → List StepDef → State → Run (Exit × State)
  run_round again ready st = do
    results ← run_steps t input st.sandboxes st.outputs profile ready
    unless_canceled st (do collected ← collect input results st []; after_collect again collected)

  abbrev pub provisioned :
      (State → Run (Exit × State))
      → List StepDef
      → State
      → Option Reason × List (String × String)
      → Run (Exit × State)
  provisioned again ready st (some e, sandboxes) =
      pure (stopped e, record st { sandboxes = sandboxes })
  provisioned again ready st (none, sandboxes) =
      run_round again ready (record st { sandboxes = sandboxes })

  -- `for len(pending) > 0 { ... }`
  abbrev pub ready_round : (State → Run (Exit × State)) → State → List StepDef → Run (Exit × State)
  ready_round again st [] = pure (stopped deadlock, st)
  ready_round again st (s ∷ ss) = do
    p ← provision_groups input (s ∷ ss) st.sandboxes
    provisioned again (s ∷ ss) st p

  abbrev pub one_round : (State → Run (Exit × State)) → State → Run (Exit × State)
  one_round again st = unless_canceled st (ready_round again st (find_ready st.pending st.outputs))

  unfoldable pub dag_loop : ℕ → State → Run (Exit × State)
  dag_loop zero st = while_pending st.pending st (pure (out_of_fuel, st))
  dag_loop (suc fuel) st = while_pending st.pending st (one_round (dag_loop fuel) st)
