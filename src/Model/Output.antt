-- ===== src/Model/Output.antt =====
-- internal/model/step.go and run.go: statuses, and the results that steps hand on.
use Prim.Native.Nat.{ℕ}
use Prim.Native.String.{String}
use mathlib.Core.Bool.{Bool, true, false}
use mathlib.Core.List.{List, []}
use fleetlift.Model.Json.{Map}

pub data StepStatus : Type 0 where
  pending cloning running verifying awaiting_input complete failed skipped : StepStatus

pub data RunStatus : Type 0 where
  pending running awaiting_input complete failed cancelled : RunStatus

-- `status == model.StepStatusFailed`, and the other two that the engine asks for.
abbrev pub is_failed : StepStatus → Bool
is_failed StepStatus.failed = true
is_failed _ = false

abbrev pub is_skipped : StepStatus → Bool
is_skipped StepStatus.skipped = true
is_skipped _ = false

abbrev pub is_awaiting : StepStatus → Bool
is_awaiting StepStatus.awaiting_input = true
is_awaiting _ = false

-- A `StepOutput` with no per-repository results: what an activity or a child workflow returns.
-- The cost is only handed on, so it is a count of its smallest unit.
pub record StepResult : Type 0 where
  pub step_id : String
  pub status : StepStatus
  pub output : Map
  pub diff : String
  pub pr_url : String
  pub branch_name : String
  pub error : String
  pub cost_usd : ℕ
  pub inbox_item_id : String
  pub question : String
  pub checkpoint_branch : String
  pub state_artifact_id : String

-- `StepOutput`: only `aggregateFanOut` fills `Outputs`, and with results that have none.
pub record StepOutput : Type 0 where
  pub result : StepResult
  pub open result use *
  pub outputs : List StepResult

-- `&model.StepOutput{StepID: id, Status: status, Error: error}`
abbrev pub bare_result : String → StepStatus → String → StepResult
bare_result id status error = record {
  step_id = id;
  status = status;
  output = [];
  diff = "";
  pr_url = "";
  branch_name = "";
  error = error;
  cost_usd = 0;
  inbox_item_id = "";
  question = "";
  checkpoint_branch = "";
  state_artifact_id = "";
}

abbrev pub single : StepResult → StepOutput
single r = record { result = r; outputs = [] }

abbrev pub bare_output : String → StepStatus → String → StepOutput
bare_output id status error = single (bare_result id status error)
