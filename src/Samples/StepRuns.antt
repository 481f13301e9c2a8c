-- ===== src/Samples/StepRuns.antt =====
-- Runs of `StepWorkflow` and of `validateStructure` on small inputs.
use fleetlift.Prelude.{◌≡◌, refl, ◌↔◌, Bool, [], ◌∷◌}
use fleetlift.Model.{StepResult}
use fleetlift.Engine.{Result}
use fleetlift.Validate.Structure.{validate_structure}
use fleetlift.Validate.Structure.Laws.{IsWellFormed, validate_structure_iff}
use fleetlift.Step.{step_workflow}
use fleetlift.Step.Rounds.{approve, reject, steer}
use fleetlift.Step.Ends.{returned}
use fleetlift.Step.Trace.{records, pulls}
use fleetlift.Step.Recorded.{Recorded, step_workflow-Recorded}
use fleetlift.Step.Pulls.{Pulled, step_workflow-Pulled}
use fleetlift.Step.Approval.{cleaned, step_workflow-no_pull, step_workflow-no_clean_up}
use fleetlift.Step.Ending.{step_workflow_ends}
use fleetlift.Prelude.{All, ◌↔◌}
use fleetlift.Validate.Fields.{validate_credential_names}
use fleetlift.Validate.Fields.Laws.{UsesNames, validate_credential_names_iff}
use fleetlift.Samples.{fix, tell}
use fleetlift.Samples.{two_steps, input, calm, calm-NeverAsks}

validate_structure_iff_example :
    (validate_structure (λ l. l) two_steps ≡ []) ↔ IsWellFormed two_steps.steps
validate_structure_iff_example = validate_structure_iff (λ l. l) (λ l v. refl) two_steps

step_workflow-Recorded_example :
    Recorded input.step_run_id []
      (step_workflow input (steer "again" ∷ reject ∷ []) calm []).0
      (records (step_workflow input (steer "again" ∷ reject ∷ []) calm []).1)
step_workflow-Recorded_example =
    step_workflow-Recorded input (λ p. cc) (steer "again" ∷ reject ∷ []) calm []

step_workflow-Pulled_example :
    Pulled input 0
      (step_workflow input (approve ∷ []) calm []).0
      (pulls (step_workflow input (approve ∷ []) calm []).1)
step_workflow-Pulled_example = step_workflow-Pulled input (approve ∷ []) calm []

step_workflow-no_pull_example :
    pulls (step_workflow input (steer "again" ∷ reject ∷ []) calm []).1 ≡ 0
step_workflow-no_pull_example =
    step_workflow-no_pull input refl calm calm-NeverAsks (steer "again" ∷ reject ∷ []) refl []

step_workflow-no_clean_up_example :
    cleaned (step_workflow input (reject ∷ []) calm []).1 ≡ cleaned []
step_workflow-no_clean_up_example =
    step_workflow-no_clean_up input refl calm calm-NeverAsks (reject ∷ []) refl []

step_workflow_ends_example :
    (r : Result StepResult) × (f : Bool) × ((step_workflow input
        (steer "again" ∷ approve ∷ [])
        calm
        []).0
      ≡ returned r f)
step_workflow_ends_example =
    step_workflow_ends input (steer "again" ∷ approve ∷ []) calm (λ h p. cc) refl []

validate_credential_names_iff_example :
    (validate_credential_names (fix ∷ tell ∷ []) ≡ []) ↔ All UsesNames (fix ∷ tell ∷ [])
validate_credential_names_iff_example = validate_credential_names_iff (fix ∷ tell ∷ [])
