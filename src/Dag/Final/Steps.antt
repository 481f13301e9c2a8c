-- ===== src/Dag/Final/Steps.antt =====
-- No step writes the status of its run: the coroutines of `DAGWorkflow`.
use fleetlift.Prelude.{
  ℕ, suc, String, ◌≡◌, refl, ◌∙◌, Option, none, some, List, [], ◌∷◌, length, leb, arith, Bool-cases,
  inl, inr,
}
use fleetlift.Model.{RunStatus, Map, StepDef, ActionDef, RepoRef, AgentProfileBody}
use fleetlift.Engine.{Activity, History, World, Result, ok, err, ResolvedStepOpts}
use fleetlift.Step.Closing.{finalize_step}
use fleetlift.Dag.Data.{DagInput, Outputs, Templates}
use fleetlift.Dag.Resolve.{eval_condition, render_config}
use fleetlift.Dag.Steps.{
  started_child, run_child, single_step, single_map, repo_map, without_approval, fan_children,
  is_partial, partial_failure, fan_out_step, agent_step, kind_step, run_action, started_action,
  action_step, resolved_step, start_step, held_by, unless_held, run_step, run_steps,
}
use fleetlift.Prelude.Text.{◌+++◌, show}

-- The statuses that were written, each with the id of its run, the latest first.
abbrev pub run_records : History → List (String × RunStatus)
run_records [] = []
run_records (Activity.update_run_status run status error ∷ h) = (run, status) ∷ run_records h
run_records (a ∷ h) = run_records h

module _ (t : Templates) (input : DagInput) (sandboxes : List (String × String)) (outputs : Outputs)
    (w : World) where
  run_action-quiet :
      (step : StepDef) (action : ActionDef) (id : String) (r : Result Map) (h : History)
      → run_records (run_action t input sandboxes outputs step action id r w h).1 ≡ run_records h
  unfolding finalize_step
  run_action-quiet step action id (err e) h = ground arith
  run_action-quiet step action id (ok config) h = ground arith

  started_action-quiet :
      (step : StepDef) (action : ActionDef) (r : Result String) (h : History)
      → run_records (started_action t input sandboxes outputs step action r w h).1 ≡ run_records h
  started_action-quiet step action (err e) h = refl
  started_action-quiet step action (ok id) h =
      run_action-quiet step action id (render_config t input.parameters outputs action.config) h

  action-quiet :
      (step : StepDef) (action : ActionDef) (h : History)
      → run_records (action_step t input sandboxes outputs step action w h).1 ≡ run_records h
  unfolding action_step
  action-quiet step action h = started_action-quiet step action (w.reply _) _

  started_child-quiet :
      (step : StepDef) (opts : ResolvedStepOpts) (id : String) (r : Result String) (h : History)
      → run_records (started_child t input sandboxes outputs step opts id r w h).1 ≡ run_records h
  started_child-quiet step opts id (err e) h = refl
  started_child-quiet step opts id (ok run) h = refl

  run_child-quiet :
      (step : StepDef) (opts : ResolvedStepOpts) (name : String) (map : Map) (h : History)
      → run_records (run_child t input sandboxes outputs step opts name map w h).1 ≡ run_records h
  unfolding run_child
  run_child-quiet step opts name map h = started_child-quiet step opts _ (w.reply _) _

  fan_children-quiet :
      (step : StepDef) (opts : ResolvedStepOpts) (j : ℕ) (repos : List RepoRef) (h : History)
      → run_records (fan_children t input sandboxes outputs step opts j repos w h).1 ≡ run_records h
  unfolding fan_children
  fan_children-quiet step opts j [] h = refl
  fan_children-quiet step opts j (repo ∷ repos) h =
      fan_children-quiet step opts (suc j) repos _
      ∙ run_child-quiet step (record opts { repos = repo ∷ [] }) (step.id +++ "-" +++ show j)
          (repo_map t input sandboxes outputs repo) h

  fan_out-quiet :
      (step : StepDef) (opts : ResolvedStepOpts) (h : History)
      → run_records (fan_out_step t input sandboxes outputs step opts w h).1 ≡ run_records h
  unfolding fan_out_step partial_failure
  fan_out-quiet step opts h =
      let (results, h') =
        fan_children t input sandboxes outputs (without_approval t input sandboxes outputs step)
          opts 0 opts.repos w h in
      let quiet =
        fan_children-quiet (without_approval t input sandboxes outputs step) opts 0 opts.repos h in
      elim (Bool-cases (is_partial t input sandboxes outputs results)) [
        | inl partial' ↦ rw partial' quiet
        | inr whole' ↦ rw whole' quiet
      ]

  agent-quiet :
      (step : StepDef) (opts : ResolvedStepOpts) (h : History)
      → run_records (agent_step t input sandboxes outputs step opts w h).1 ≡ run_records h
  unfolding single_step
  agent-quiet step opts h = elim (Bool-cases (leb (length opts.repos) 1)) [
    | inl one ↦
        rw one
          (run_child-quiet step opts step.id (single_map t input sandboxes outputs opts.repos) h)
    | inr many ↦ rw many (fan_out-quiet step opts h)
  ]

  kind-quiet :
      (step : StepDef) (kind : Option ActionDef) (opts : ResolvedStepOpts) (h : History)
      → run_records (kind_step t input sandboxes outputs (record step { action = kind }) opts w h).1
        ≡ run_records h
  kind-quiet step none opts h = agent-quiet (record step { action = none }) opts h
  kind-quiet step (some a) opts h = action-quiet (record step { action = some a }) a h

  resolved-quiet :
      (profile : Option AgentProfileBody) (step : StepDef) (r : Result ResolvedStepOpts)
      (h : History)
      → run_records (resolved_step t input sandboxes outputs profile step r w h).1 ≡ run_records h
  resolved-quiet profile step (err e) h = refl
  resolved-quiet profile step (ok opts) h =
      elim (Bool-cases (eval_condition t input.parameters outputs step.condition)) [
        | inl holds ↦
            rw holds (kind-quiet step step.action (record opts { effective_profile = profile }) h)
        | inr fails ↦ rw fails refl
      ]

  unless_held-quiet :
      (profile : Option AgentProfileBody) (step : StepDef) (by : Option String) (h : History)
      → run_records (unless_held t input sandboxes outputs profile step by w h).1 ≡ run_records h
  unfolding start_step
  unless_held-quiet profile step (some dep) h = refl
  unless_held-quiet profile step none h = resolved-quiet profile step _ h

  pub run_steps-quiet :
      (profile : Option AgentProfileBody) (steps : List StepDef) (h : History)
      → run_records (run_steps t input sandboxes outputs profile steps w h).1 ≡ run_records h
  unfolding run_steps run_step
  run_steps-quiet profile [] h = refl
  run_steps-quiet profile (step ∷ steps) h =
      run_steps-quiet profile steps _
      ∙ unless_held-quiet profile step (held_by t input sandboxes outputs step) h
