-- ===== src/Samples/DagRuns.antt =====
-- Runs of `DAGWorkflow` and its parts on small inputs.
use fleetlift.Dag.Data.{DagInput}
use fleetlift.Prelude.{String, ◌≡◌, refl, lookup, none, some, [], ◌∷◌, Option, if◌then◌else◌, ◌==◌}
use fleetlift.Model.{StepStatus, StepResult, bare_result}
use fleetlift.Validate.Structure.{validate_structure}
use fleetlift.Validate.Structure.Laws.{validate_structure_iff}
use fleetlift.Dag.Progress.{IsLive, dag_workflow_ends}
use fleetlift.Dag.Steps.{run_step}
use fleetlift.Dag.Workflow.{run_loop, dag_workflow}
use fleetlift.Prelude.{Option, List, ◌||◌, not, ◌+◌, ltb, contains, IsDistinct}
use fleetlift.Model.{bare_output, is_failed, RunStatus, RepoRef}
use fleetlift.Dag.Steps.{decided, fan_out_step}
use fleetlift.Dag.FanOut.{aggregate_fan_out, failures}
use fleetlift.Dag.FanOut.Failures.{missing, aggregate_fan_out-failed, goes_on, decided-failed}
use fleetlift.Dag.Held.{Blocks, run_step-held}
use fleetlift.Dag.Final.{HasStatuses, dag_workflow-statuses}
use fleetlift.Engine.{update_run_status}
use fleetlift.Dag.Final.Steps.{run_records}
use fleetlift.Dag.Workflow.{all_credentials}
use fleetlift.Dag.Credentials.{asked_by_steps, asked_by_profile, contains-all_credentials}
use fleetlift.Profiles.{
  plugin_key, skill_key, mcp_key, keys_of, last_of, merge_profiles, last_of-merge_profiles,
}
use fleetlift.Profiles.Resolve.{Row, row, no_rows, row_error, resolve_agent_profile}
use fleetlift.Profiles.Layers.{Resolves, resolve_agent_profile-Resolves}
use fleetlift.Model.{McpConfig, AgentProfileBody}
use fleetlift.Prelude.{All}
use fleetlift.Dag.Cleaned.{IsCleaned, run_loop-IsCleaned}
use fleetlift.Step.Unattended.{NeverWaits}
use fleetlift.Dag.Unasked.{Started, fan_out_step-Started}
use fleetlift.Samples.{
  fix, tell, two_steps, run, plain, opts, calm, calm-AnswersOwn, two_steps-IsWellFormed,
}

two_steps_valid : validate_structure (λ l. l) two_steps ≡ []
two_steps_valid = (validate_structure_iff (λ l. l) (λ l v. refl) two_steps).1 two_steps-IsWellFormed

dag_workflow_ends_example : IsLive (dag_workflow plain run calm []).0
dag_workflow_ends_example =
    dag_workflow_ends plain run (λ l. l) (λ l v. refl) two_steps_valid calm calm-AnswersOwn []

found :
    Blocks
      (("fix", bare_output "fix" StepStatus.failed "no") ∷ [])
      "fix"
      (bare_output "fix" StepStatus.failed "no")
unfolding lookup
found = (refl, refl)

run_step-held_example :
    (let (r, h') =
        run_step plain run []
          (("fix", bare_output "fix" StepStatus.failed "no") ∷ [])
          none
          tell
          calm
          [] in
      (r.status ≡ StepStatus.skipped) × (r.step_id ≡ "tell") × (h' ≡ []))
run_step-held_example =
    run_step-held plain run [] (("fix", bare_output "fix" StepStatus.failed "no") ∷ []) none tell
      refl "fix" (bare_output "fix" StepStatus.failed "no") refl found calm []

-- One child is good, one has failed, and one has set no result.
abbrev mixed : List (Option StepResult)
mixed =
    some (bare_result "fix" StepStatus.complete "")
    ∷ some (bare_result "fix" StepStatus.failed "no")
    ∷ none
    ∷ []

aggregate_fan_out-failed_example :
    (is_failed (aggregate_fan_out "fix" mixed).status ≡ ltb 0 (failures mixed + missing mixed))
    × ((aggregate_fan_out "fix" mixed).step_id ≡ "fix")
aggregate_fan_out-failed_example = aggregate_fan_out-failed "fix" mixed

decided-failed_example :
    is_failed (decided plain run [] [] fix mixed "1/3" (some "proceed")).status
    ≡ not (goes_on (some "proceed"))
decided-failed_example = decided-failed plain run [] [] fix mixed "1/3" (some "proceed")

dag_workflow-statuses_example :
    HasStatuses run.run_id
      (calm.reply (update_run_status run.run_id RunStatus.running "" ∷ []))
      (dag_workflow plain run calm []).0
      []
      (run_records (dag_workflow plain run calm []).1)
dag_workflow-statuses_example = dag_workflow-statuses plain run calm []

contains-all_credentials_example :
    ((n : String)
      → contains (all_credentials (fix ∷ tell ∷ []) none) n
        ≡ (asked_by_steps (fix ∷ tell ∷ []) n || asked_by_profile none n))
    × IsDistinct (all_credentials (fix ∷ tell ∷ []) none)
contains-all_credentials_example = contains-all_credentials (fix ∷ tell ∷ []) none

abbrev server : String → McpConfig
server url = record {
  name = "docs";
  type = "http";
  transport = "sse";
  url = url;
  headers = [];
  credentials = [];
}

abbrev with_server : String → AgentProfileBody
with_server url = record { plugins = []; skills = []; mcps = server url ∷ [] }

last_of-merge_profiles_example :
    (let merged = merge_profiles (some (with_server "old")) (some (with_server "new")) in
      (last_of plugin_key merged.plugins "docs" ≡ none)
      × (last_of skill_key merged.skills "docs" ≡ none)
      × (last_of mcp_key merged.mcps "docs" ≡ some (server "new"))
      × (keys_of plugin_key merged.plugins ≡ [])
      × (keys_of skill_key merged.skills ≡ [])
      × (keys_of mcp_key merged.mcps ≡ "docs" ∷ []))
last_of-merge_profiles_example =
    last_of-merge_profiles (some (with_server "old")) (some (with_server "new")) "docs"

abbrev repo : String → RepoRef
repo url = record { url = url; branch = ""; ref = ""; name = ""; create_branch = "" }

fan_out_step-Started_example :
    Started NeverWaits
      (fan_out_step plain run [] [] fix
        (record opts { repos = repo "a" ∷ repo "b" ∷ [] })
        calm
        []).1
fan_out_step-Started_example =
    fan_out_step-Started plain run [] [] calm fix (record opts { repos = repo "a" ∷ repo "b" ∷ [] })
      [] tt

-- The first step, in a sandbox group.
abbrev grouped : DagInput
grouped = record run {
  workflow_def = record two_steps { steps = record fix { sandbox_group = "g" } ∷ [] };
}

run_loop-IsCleaned_example :
    (let (r, h') = run_loop plain grouped none calm [] in All (IsCleaned h') r.1.sandboxes)
run_loop-IsCleaned_example = run_loop-IsCleaned plain grouped calm none []

-- The system has a baseline, the team a profile "docs", and the query of any other name fails.
abbrev profiles : Option String → String → Row
profiles none name = if name == "baseline" then row (with_server "old") else row_error "timeout"
profiles (some team) name = if name == "docs" then row (with_server "new") else no_rows

resolve_agent_profile-Resolves_example :
    Resolves profiles (λ s. s) "a" "docs" (resolve_agent_profile profiles (λ s. s) "a" "docs")
resolve_agent_profile-Resolves_example = resolve_agent_profile-Resolves profiles (λ s. s) "a" "docs"
