-- ===== src/Dag/Progress/Results.antt =====
-- The result of a step's coroutine carries the step's id, if its child workflow's result does.
use fleetlift.Prelude.{
  ℕ, suc, String, ◌≡◌, refl, ap, Option, none, some, List, [], ◌∷◌, All, arith, inl, inr,
  Bool-cases, leb, length,
}
use fleetlift.Model.{StepResult, StepDef, ActionDef, AgentProfileBody}
use fleetlift.Engine.{
  History, World, Result, ok, err, ResolvedStepOpts, StepInput, run_step_workflow,
}
use fleetlift.Dag.Data.{DagInput, Outputs, Templates}
use fleetlift.Dag.FanOut.{aggregate_fan_out, successful}
use fleetlift.Dag.Resolve.{resolve_all, eval_condition}
use fleetlift.Dag.Steps.{
  child_result, child_input, started_child, run_child, without_approval, is_partial, decided,
  agent_step, kind_step, resolved_step, unless_held, action_step, single_step, partial_failure,
  fan_children, fan_out_step, start_step, run_step, run_steps, held_by,
}

-- What the child workflow of a step returns is the output of that step.
abbrev pub AnswersOwn : World → Type 0
AnswersOwn w =
    (id : String) (input : StepInput) (h : History) (out : StepResult)
    → w.result (run_step_workflow id input ∷ h) ≡ ok out
    → out.step_id ≡ input.step_def.id

aggregate-id :
    (id : String) (rs : List (Option StepResult)) → (aggregate_fan_out id rs).step_id ≡ id
unfolding aggregate_fan_out
aggregate-id id [] = refl
aggregate-id id (none ∷ rs) = refl
aggregate-id id (some r ∷ []) = refl
aggregate-id id (some r ∷ r' ∷ rs) = refl

module _ (t : Templates) (input : DagInput) (sandboxes : List (String × String)) (outputs : Outputs)
    (w : World) (own : AnswersOwn w) where
  action-id :
      (step : StepDef) (action : ActionDef) (h : History)
      → (action_step t input sandboxes outputs step action w h).0.step_id ≡ step.id
  unfolding action_step
  action-id step action h = ground arith

  child_result-id :
      (step : StepDef) (r : Result StepResult)
      → ((out : StepResult) → r ≡ ok out → out.step_id ≡ step.id)
      → (child_result step r).step_id ≡ step.id
  child_result-id step (err e) h = refl
  child_result-id step (ok out) h = h out refl

  started_child-id :
      (step : StepDef) (opts : ResolvedStepOpts) (id : String) (r : Result String) (h : History)
      → (started_child t input sandboxes outputs step opts id r w h).0.step_id ≡ step.id
  started_child-id step opts id (err e) h = refl
  started_child-id step opts id (ok run) h =
      child_result-id step _ (own id (child_input t input sandboxes outputs step opts run) h)

  single-id :
      (step : StepDef) (opts : ResolvedStepOpts) (h : History)
      → (single_step t input sandboxes outputs step opts w h).0.step_id ≡ step.id
  unfolding single_step run_child
  single-id step opts h = started_child-id step opts _ (w.reply _) _

  decided-id :
      (step : StepDef) (results : List (Option StepResult)) (ratio : String)
      (action : Option String)
      → (decided t input sandboxes outputs step results ratio action).step_id ≡ step.id
  unfolding decided
  decided-id step results ratio none = refl
  decided-id step results ratio (some action) =
      ground (arith, aggregate-id step.id (successful results))

  partial-id :
      (step : StepDef) (count : ℕ) (results : List (Option StepResult)) (h : History)
      → (partial_failure t input sandboxes outputs step count results w h).0.step_id ≡ step.id
  unfolding partial_failure
  partial-id step count results h = decided-id step results _ (w.fan_out _)

  fan-id :
      (step : StepDef) (opts : ResolvedStepOpts) (h : History)
      → (fan_out_step t input sandboxes outputs step opts w h).0.step_id ≡ step.id
  unfolding fan_out_step
  fan-id step opts h =
      let (results, h') =
        fan_children t input sandboxes outputs (without_approval t input sandboxes outputs step)
          opts 0 opts.repos w h in
      elim (Bool-cases (is_partial t input sandboxes outputs results)) [
        | inl split ↦ rw split (partial-id step (length opts.repos) results h')
        | inr whole ↦ rw whole (aggregate-id step.id results)
      ]

  agent-id :
      (step : StepDef) (opts : ResolvedStepOpts) (h : History)
      → (agent_step t input sandboxes outputs step opts w h).0.step_id ≡ step.id
  agent-id step opts h = elim (Bool-cases (leb (length opts.repos) 1)) [
    | inl one ↦ rw one (single-id step opts h)
    | inr more ↦ rw more (fan-id step opts h)
  ]

  kind-id :
      (step : StepDef) (action : Option ActionDef) (opts : ResolvedStepOpts) (h : History)
      → (kind_step t input sandboxes outputs (record step { action = action }) opts w h).0.step_id
        ≡ step.id
  kind-id step none opts h = agent-id (record step { action = none }) opts h
  kind-id step (some action) opts h = action-id (record step { action = some action }) action h

  resolved-id :
      (profile : Option AgentProfileBody) (step : StepDef) (r : Result ResolvedStepOpts)
      (h : History)
      → (resolved_step t input sandboxes outputs profile step r w h).0.step_id ≡ step.id
  resolved-id profile step (err e) h = refl
  resolved-id profile step (ok opts) h =
      elim (Bool-cases (eval_condition t input.parameters outputs step.condition)) [
        | inl met ↦
            rw met (kind-id step step.action (record opts { effective_profile = profile }) h)
        | inr unmet ↦ rw unmet refl
      ]

  held-id :
      (profile : Option AgentProfileBody) (step : StepDef) (held : Option String) (h : History)
      → (unless_held t input sandboxes outputs profile step held w h).0.step_id ≡ step.id
  unfolding start_step
  held-id profile step (some dep) h = refl
  held-id profile step none h =
      resolved-id profile step (resolve_all t input.parameters outputs step) h

  pub run_step-id :
      (profile : Option AgentProfileBody) (step : StepDef) (h : History)
      → (run_step t input sandboxes outputs profile step w h).0.step_id ≡ step.id
  unfolding run_step
  run_step-id profile step h = held-id profile step (held_by t input sandboxes outputs step) h

  -- Each result of a round stands beside its step, and they are the ready ones.
  pub run_steps-All {κ} :
      (P : StepDef → Type κ) (profile : Option AgentProfileBody) (steps : List StepDef)
      (h : History)
      → All P steps
      → All
          (λ p. P p.0 × (p.1.step_id ≡ p.0.id))
          (run_steps t input sandboxes outputs profile steps w h).0
  unfolding run_steps
  run_steps-All P profile [] h all = tt
  run_steps-All P profile (step ∷ steps) h all =
      ((all.0, run_step-id profile step h), run_steps-All P profile steps _ all.1)

  pub length-run_steps :
      (profile : Option AgentProfileBody) (steps : List StepDef) (h : History)
      → length (run_steps t input sandboxes outputs profile steps w h).0 ≡ length steps
  unfolding run_steps
  length-run_steps profile [] h = refl
  length-run_steps profile (step ∷ steps) h = ap suc (length-run_steps profile steps _)
