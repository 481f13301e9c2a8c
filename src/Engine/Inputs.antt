-- ===== src/Engine/Inputs.antt =====
-- internal/workflow/step.go and internal/model/continuation.go: the inputs of the activities.
use fleetlift.Prelude.{ℕ, String, Option, List}
use fleetlift.Model.{Value, RepoRef, PrDef, SandboxSpec, AgentProfileBody, StepDef}

pub record ResolvedStepOpts : Type 0 where
  pub prompt : String
  pub repos : List RepoRef
  pub verifiers : Option Value
  pub credentials : List String
  pub pr_config : Option PrDef
  pub agent : String
  pub max_turns : ℕ
  pub sandbox_group_image : String
  pub sandbox_spec : Option SandboxSpec
  pub effective_profile : Option AgentProfileBody
  pub eval_plugin_urls : List String

pub record StepInput : Type 0 where
  pub run_id : String
  pub step_run_id : String
  pub team_id : String
  pub workflow_template_id : String
  pub step_def : StepDef
  pub resolved_opts : ResolvedStepOpts
  pub sandbox_id : String
  pub model_override : String
  pub triggered_by : String

pub record ContinuationContext : Type 0 where
  pub inbox_item_id : String
  pub question : String
  pub human_answer : String
  pub checkpoint_branch : String
  pub state_artifact_id : String

pub record ExecuteStepInput : Type 0 where
  pub step_input : StepInput
  pub sandbox_id : String
  pub prompt : String
  pub conversation_history : String
  pub continuation_context : Option ContinuationContext
  pub eval_plugin_dirs : List String

pub record RunPreflightInput : Type 0 where
  pub sandbox_id : String
  pub team_id : String
  pub profile : AgentProfileBody
  pub eval_plugin_urls : List String

pub record ContinuationRunInput : Type 0 where
  pub run_id : String
  pub step_id : String
  pub step_title : String
  pub temporal_workflow_id : String
  pub parent_step_run_id : String
  pub checkpoint_branch : String
  pub checkpoint_artifact_id : String

pub record CleanupCheckpointInput : Type 0 where
  pub repo_url : String
  pub branch : String
  pub credential_name : String
  pub team_id : String
