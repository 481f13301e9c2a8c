-- ===== src/Dag/Unasked.antt =====
-- internal/workflow/dag.go: the children of a fan-out cannot be approved, so they must not wait for it.
use fleetlift.Prelude.{
  ℕ, suc, String, ◌≡◌, refl, true, List, [], ◌∷◌, eq_iff, Bool-cases, inl, inr, ◌⊎◌, ◌==◌,
}
use fleetlift.Model.{StepDef, RepoRef}
use fleetlift.Engine.{Activity, History, World, Result, ok, err, ResolvedStepOpts, StepInput}
use fleetlift.Step.Rounds.{should_pause}
use fleetlift.Step.Unattended.{NeverPauses, NeverWaits, step_workflow-NeverWaits}
use fleetlift.Dag.Data.{DagInput, Outputs, Templates}
use fleetlift.Dag.Steps.{
  started_child, run_child, without_approval, fan_children, is_partial, partial_failure,
  fan_out_step,
}

-- Each child workflow that was started has an input of which `P` holds.
abbrev pub Started : (StepInput → Type 0) → History → Type 0
Started P [] = Unit
Started P (Activity.run_step_workflow id input ∷ h) = P input × Started P h
Started P (a ∷ h) = Started P h

never_pauses :
    (step : StepDef)
    → ((step.approval_policy == "never") ≡ true) ⊎ ((step.approval_policy == "") ≡ true)
    → NeverPauses step
unfolding should_pause
never_pauses step (inl never) output = rw ((eq_iff step.approval_policy "never").0 never) refl
never_pauses step (inr unset) output = rw ((eq_iff step.approval_policy "").0 unset) refl

module _ (t : Templates) (input : DagInput) (sandboxes : List (String × String))
    (outputs : Outputs) where
  without_approval-NeverPauses :
      (step : StepDef) → NeverPauses (without_approval t input sandboxes outputs step)
  unfolding should_pause
  without_approval-NeverPauses step output = elim (Bool-cases (step.approval_policy == "")) [
    | inl unset ↦ rw unset (never_pauses step (inr unset) output)
    | inr set ↦ elim (Bool-cases (step.approval_policy == "never")) [
      | inl never ↦ rw (set, never) (never_pauses step (inl never) output)
      | inr other ↦ rw (set, other) refl
    ]
  ]

  module _ (w : World) (step : StepDef) (calm : NeverPauses step) where
    abbrev Calm : History → Type 0
    Calm = Started NeverWaits

    started_child-Calm :
        (opts : ResolvedStepOpts) (id : String) (r : Result String) (h : History)
        → Calm h
        → Calm (started_child t input sandboxes outputs step opts id r w h).1
    started_child-Calm opts id (err e) h c = c
    started_child-Calm opts id (ok run) h c = (step_workflow-NeverWaits _ calm, c)

    fan_children-Calm :
        (opts : ResolvedStepOpts) (j : ℕ) (repos : List RepoRef) (h : History)
        → Calm h
        → Calm (fan_children t input sandboxes outputs step opts j repos w h).1
    unfolding fan_children run_child
    fan_children-Calm opts j [] h c = c
    fan_children-Calm opts j (repo ∷ repos) h c =
        fan_children-Calm opts (suc j) repos _
          (started_child-Calm (record opts { repos = repo ∷ [] }) _ (w.reply _) _ c)

-- If the children that were started before are such, so are those that a fan-out starts, whatever the
-- approval policy of its step is: under any signals of the operator or none, the child's
-- `StepWorkflow` does not wait for input, where no agent asks for human input by itself.
pub fan_out_step-Started :
    (t : Templates) (input : DagInput) (sandboxes : List (String × String)) (outputs : Outputs)
    (w : World) (step : StepDef) (opts : ResolvedStepOpts) (h : History)
    → Started NeverWaits h
    → Started NeverWaits (fan_out_step t input sandboxes outputs step opts w h).1
unfolding fan_out_step partial_failure
fan_out_step-Started t input sandboxes outputs w step opts h c =
    let quiet = without_approval t input sandboxes outputs step in
    let children =
      fan_children-Calm t input sandboxes outputs w quiet
        (without_approval-NeverPauses t input sandboxes outputs step) opts 0 opts.repos h c in
    elim (Bool-cases (
      is_partial t input sandboxes outputs
        (fan_children t input sandboxes outputs quiet opts 0 opts.repos w h).0)) [
          | inl mixed ↦ rw mixed children
          | inr whole ↦ rw whole children
        ]
