-- ===== src/Engine/Calls.antt =====
-- internal/workflow/step.go: the activities by name, with the arguments that the workflows pass.
use fleetlift.Prelude.{ℕ, String, List}
use fleetlift.Model.{Value, Map, StepStatus, RunStatus}
use fleetlift.Engine.Inputs.{
  StepInput, ExecuteStepInput, RunPreflightInput, ContinuationRunInput, CleanupCheckpointInput,
}

pub data Activity : Type 0 where
  update_run_status : (run : String) (status : RunStatus) (error : String) → Activity
  get_primary_run_artifact_id : (run : String) → Activity
  create_inbox_item : (team run kind title summary artifact step : String) → Activity
  resolve_agent_profile : (team name : String) → Activity
  validate_credentials : (team : String) (names : List String) → Activity
  provision_sandbox : StepInput → Activity
  create_step_run : (run step title workflow : String) (input : Map) → Activity
  execute_action :
      (step_run type : String) (config : Map) (team : String) (names : List String) → Activity
  complete_step_run :
      (step_run : String) (status : StepStatus) (output : Map) (diff error : String) (cost : ℕ)
      → Activity
  cleanup_sandbox : (sandbox : String) → Activity
  run_preflight : RunPreflightInput → Activity
  execute_step : ExecuteStepInput → Activity
  verify_step : (sandbox step_run : String) (verifiers : Value) → Activity
  update_step_status : (step_run : String) (status : StepStatus) → Activity
  create_pull_request : (sandbox : String) (input : StepInput) → Activity
  create_continuation_step_run : ContinuationRunInput → Activity
  cleanup_checkpoint_branch : CleanupCheckpointInput → Activity
  -- The child workflow of a step, with its workflow id.
  run_step_workflow : (id : String) (input : StepInput) → Activity
