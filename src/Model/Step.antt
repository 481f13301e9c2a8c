-- ===== src/Model/Step.antt =====
-- internal/model/workflow.go: the parsed form of a workflow template. A pointer that may be nil is
-- an `Option`; a nil slice or map is the empty one.
use Prim.Native.Nat.{ℕ}
use Prim.Native.String.{String}
use mathlib.Core.Bool.{Bool, false}
use mathlib.Core.Option.{Option, none}
use mathlib.Core.List.{List, [], ◌∷◌}
use fleetlift.Model.Json.{Value, Map}

pub record RepoRef : Type 0 where
  pub url : String
  pub branch : String
  pub ref : String
  pub name : String
  pub create_branch : String

pub record ParameterDef : Type 0 where
  pub name : String
  pub type : String
  pub required : Bool
  pub default : Option Value
  pub description : String

pub record SandboxSpec : Type 0 where
  pub image : String
  pub cpu : String
  pub memory : String
  pub egress_allow : List String
  pub deny_all_by_default : Bool
  pub timeout : String
  pub workspace_size : String

-- `output` is the schema of `OutputSchemaDef`, a map from the field names.
pub record ExecutionDef : Type 0 where
  pub agent : String
  pub prompt : String
  pub verifiers : Option Value
  pub credentials : List String
  pub output : Option Map
  pub eval_plugins : List String
  pub max_turns : ℕ

pub record PrDef : Type 0 where
  pub branch_prefix : String
  pub title : String
  pub body : String
  pub labels : List String
  pub draft : Bool

pub record ActionDef : Type 0 where
  pub type : String
  pub config : Map
  pub credentials : List String

-- The fields `inputs`, `outputs` and `knowledge`, which only activities read, are left out.
pub record StepDef : Type 0 where
  pub id : String
  pub title : String
  pub depends_on : List String
  pub sandbox_group : String
  pub mode : String
  pub repositories : Option Value
  pub max_parallel : ℕ
  pub execution : Option ExecutionDef
  pub approval_policy : String
  pub allow_mid_exec_pause : Bool
  pub pull_request : Option PrDef
  pub condition : String
  pub optional : Bool
  pub action : Option ActionDef
  pub sandbox : Option SandboxSpec
  pub timeout : String

-- `sandbox_groups` gives each group's image.
pub record WorkflowDef : Type 0 where
  pub version : ℕ
  pub id : String
  pub title : String
  pub description : String
  pub hidden : Bool
  pub tags : List String
  pub parameters : List ParameterDef
  pub steps : List StepDef
  pub agent_profile : String
  pub sandbox_groups : List (String × String)

-- The ids of the steps, in order.
abbrev pub step_ids : List StepDef → List String
step_ids [] = []
step_ids (s ∷ ss) = s.id ∷ step_ids ss

-- The zero value of a `StepDef`.
abbrev pub no_step : StepDef
no_step = record {
  id = "";
  title = "";
  depends_on = [];
  sandbox_group = "";
  mode = "";
  repositories = none;
  max_parallel = 0;
  execution = none;
  approval_policy = "";
  allow_mid_exec_pause = false;
  pull_request = none;
  condition = "";
  optional = false;
  action = none;
  sandbox = none;
  timeout = "";
}
