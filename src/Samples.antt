-- ===== src/Samples.antt =====
-- A workflow of two steps, a run of it, and a world that answers it.
pub mod StepRuns
pub mod DagRuns
pub mod ValidateRuns
pub mod ActivityRuns
pub mod PreflightRuns
pub mod CryptoRuns
use fleetlift.Prelude.{
  ℕ, String, ◌≡◌, refl, ap, sym, if◌then◌else◌, lookup, insert, ◌↔◌, Bool, true, false, none, some,
  [], ◌∷◌, In, has, ◌==◌, arith,
}
use fleetlift.Model.{
  StepStatus, StepResult, bare_result, is_awaiting, ExecutionDef, ActionDef, PrDef, StepDef,
  WorkflowDef, no_step, step_ids,
}
use fleetlift.Engine.{Activity, History, World, Result, ok, err, ResolvedStepOpts, StepInput}
use fleetlift.Validate.Names.{matches_step_id}
use fleetlift.Validate.Structure.{validate_structure}
use fleetlift.Validate.Structure.Laws.{IsWellFormed, validate_structure_iff}
use fleetlift.Step.{step_workflow}
use fleetlift.Step.Rounds.{approve, reject, steer}
use fleetlift.Step.Ends.{returned}
use fleetlift.Step.Trace.{records, pulls}
use fleetlift.Step.Recorded.{Recorded, step_workflow-Recorded}
use fleetlift.Step.Pulls.{Pulled, step_workflow-Pulled}
use fleetlift.Step.Approval.{NeverAsks, cleaned, step_workflow-no_pull, step_workflow-no_clean_up}
use fleetlift.Step.Ending.{step_workflow_ends}
use fleetlift.Dag.Data.{DagInput, Templates}
use fleetlift.Dag.Progress.{IsLive, dag_workflow_ends}
use fleetlift.Dag.Progress.Results.{AnswersOwn}
use fleetlift.Dag.Progress.Collect.{Passes}
use fleetlift.Dag.Exit.{done}
use fleetlift.Prelude.Sort.{place, sort_by}
use fleetlift.Dag.Rounds.{provision_groups, collect, run_round, dag_loop}
use fleetlift.Dag.Resolve.{eval_condition, render_config, resolve_all}
use fleetlift.Dag.Steps.{
  run_steps, run_step, start_step, single_step, run_child, action_step, blocking,
}
use fleetlift.Dag.Ready.{remove, all_pending, unblocked, find_ready}
use fleetlift.Dag.Workflow.{cleanup_groups, run_loop, dag_workflow}

abbrev pub execution : ExecutionDef
execution = record {
  agent = "claude-code";
  prompt = "Fix it";
  verifiers = none;
  credentials = [];
  output = none;
  eval_plugins = [];
  max_turns = 0;
}

abbrev pub slack : ActionDef
slack = record { type = "slack_notify"; config = []; credentials = "SLACK" ∷ [] }

abbrev pub pull : PrDef
pull = record { branch_prefix = "fix"; title = "Fix"; body = ""; labels = []; draft = true }

-- A step that waits for the operator and opens a pull request.
abbrev pub fix : StepDef
fix = record no_step {
  id = "fix";
  mode = "transform";
  approval_policy = "always";
  execution = some execution;
  pull_request = some pull;
}

-- An action that comes after it.
abbrev pub tell : StepDef
tell = record no_step { id = "tell"; depends_on = "fix" ∷ []; action = some slack }

abbrev pub two_steps : WorkflowDef
two_steps = record {
  version = 1;
  id = "wf";
  title = "Fix and tell";
  description = "";
  hidden = false;
  tags = [];
  parameters = [];
  steps = fix ∷ tell ∷ [];
  agent_profile = "";
  sandbox_groups = [];
}

abbrev pub run : DagInput
run = record {
  run_id = "r";
  team_id = "t";
  workflow_template_id = "wf";
  workflow_def = two_steps;
  parameters = [];
  model_override = "";
  triggered_by = "me";
}

-- Texts without templates.
abbrev pub plain : Templates
plain = record {
  render = λ s m o. ok s;
  render_condition = λ s m o. none;
  marshal = λ v. ok "[]";
  parse_repos = λ s. ok [];
}

abbrev pub opts : ResolvedStepOpts
opts = record {
  prompt = "Fix it";
  repos = [];
  verifiers = none;
  credentials = [];
  pr_config = some pull;
  agent = "claude-code";
  max_turns = 0;
  sandbox_group_image = "";
  sandbox_spec = none;
  effective_profile = none;
  eval_plugin_urls = [];
}

abbrev pub input : StepInput
input = record {
  run_id = "r";
  step_run_id = "sr";
  team_id = "t";
  workflow_template_id = "wf";
  step_def = fix;
  resolved_opts = opts;
  sandbox_id = "";
  model_override = "";
  triggered_by = "me";
}

-- Each step is complete, under the id of the step that was asked for.
abbrev pub asked : History → String
asked (Activity.run_step_workflow id i ∷ h) = i.step_def.id
asked h = "fix"

abbrev pub calm : World
calm = record {
  reply = λ h. ok "x";
  result = λ h. ok (bare_result (asked h) StepStatus.complete "");
  action = λ h. ok [];
  dirs = λ h. ok [];
  profile = λ h. err (record { text = "no profile"; canceled = false });
  canceled = λ h. false;
  fan_out = λ h. none;
  answer = λ h. some "yes";
}

pub ok-injective : {A : Type 0} {a b : A} → ok a ≡ ok b → a ≡ b
ok-injective e = cc

pub calm-AnswersOwn : AnswersOwn calm
calm-AnswersOwn id i h out e = ap (λ r. r.step_id) (sym (ok-injective e))

pub calm-NeverAsks : NeverAsks calm
calm-NeverAsks h out e = ap (λ r. is_awaiting r.status) (sym (ok-injective e))

abbrev pub depth : String → ℕ
depth s = if s == "tell" then 1 else 0

pub two_steps-IsWellFormed : IsWellFormed two_steps.steps
unfolding matches_step_id
two_steps-IsWellFormed = record {
  named = (refl, (refl, tt));
  distinct = (refl, (refl, tt));
  known = (tt, ((refl, tt), tt));
  rank = depth;
  ranked = (tt, ((omega arith, tt), tt));
  kinds = (refl, (refl, tt));
}
