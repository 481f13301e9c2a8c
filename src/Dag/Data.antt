-- ===== src/Dag/Data.antt =====
-- internal/workflow/dag.go: the input, the state of a run, and what the workflow takes from the
-- template engine and from JSON.
use fleetlift.Prelude.{String, Bool, Option, List}
use fleetlift.Model.{Value, Map, StepOutput, StepDef, WorkflowDef, RepoRef}
use fleetlift.Engine.{Result}

pub record DagInput : Type 0 where
  pub run_id : String
  pub team_id : String
  pub workflow_template_id : String
  pub workflow_def : WorkflowDef
  pub parameters : Map
  pub model_override : String
  pub triggered_by : String

-- The outputs of the steps that are done, by step id.
abbrev pub Outputs : Type 0
Outputs = List (String × StepOutput)

-- `RenderPrompt` and the condition's template (`none` where it cannot be parsed or executed), both
-- by text/template, and the two JSON conversions of `resolveRepos`.
pub record Templates : Type 0 where
  pub render : String → Map → Outputs → Result String
  pub render_condition : String → Map → Outputs → Option String
  pub marshal : Value → Result String
  pub parse_repos : String → Result (List RepoRef)

-- The variables of `DAGWorkflow`: `sandboxes` by group, and `sentStepFailedNotification`.
pub record State : Type 0 where
  pub outputs : Outputs
  pub sandboxes : List (String × String)
  pub pending : List (String × StepDef)
  pub notified : Bool
