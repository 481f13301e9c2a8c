-- ===== src/Dag/Workflow.antt =====
-- internal/workflow/dag.go: `DAGWorkflow` as a whole: the run's status, the profile, the credentials,
-- the loop, and the two deferred functions.
use fleetlift.Prelude.{
  String, Bool, true, false, not, Option, none, some, List, [], ◌∷◌, ◌++◌, contains, length,
  if◌then◌else◌, ◌==◌,
}
use fleetlift.Prelude.Text.{◌+++◌}
use fleetlift.Prelude.Sort.{sort_by}
use fleetlift.Model.{RunStatus, StepDef, McpConfig, AgentProfileBody}
use fleetlift.Engine.{
  Result, ok, err, Run, update_run_status, get_primary_run_artifact_id, create_inbox_item,
  resolve_agent_profile, validate_credentials, cleanup_sandbox,
}
use fleetlift.Engine.Monad.{◌>>=◌, ◌>>◌, pure, call, call_profile}
use fleetlift.Dag.Data.{DagInput, Templates, State}
use fleetlift.Dag.Ready.{all_pending}
use fleetlift.Dag.Exit.{Exit, stopped, Reason, not_marked, no_profile, no_credentials, error_of}
use fleetlift.Dag.Rounds.{dag_loop}

-- Adds the names that are not there yet, in order.
unfoldable pub add_new : List String → List String → List String
add_new seen [] = seen
add_new seen (n ∷ ns) = add_new (if contains seen n then seen else seen ++ n ∷ []) ns

abbrev pub step_credentials : StepDef → List String
step_credentials s =
    elim s.execution [ none ↦ [] | some e ↦ e.credentials ]
    ++ elim s.action [ none ↦ [] | some a ↦ a.credentials ]

unfoldable pub steps_credentials : List String → List StepDef → List String
unfolding add_new
steps_credentials seen [] = seen
steps_credentials seen (s ∷ ss) = steps_credentials (add_new seen (step_credentials s)) ss

unfoldable pub mcp_credentials : List String → List McpConfig → List String
unfolding add_new
mcp_credentials seen [] = seen
mcp_credentials seen (m ∷ ms) = mcp_credentials (add_new seen m.credentials) ms

abbrev pub profile_mcps : Option AgentProfileBody → List McpConfig
profile_mcps none = []
profile_mcps (some p) = p.mcps

-- The names that the preflight asks for, sorted and each once.
unfoldable pub all_credentials : List StepDef → Option AgentProfileBody → List String
unfolding steps_credentials mcp_credentials sort_by
all_credentials steps profile =
    sort_by (λ n. n) (mcp_credentials (steps_credentials [] steps) (profile_mcps profile))

abbrev pub no_state : State
no_state = record { outputs = []; sandboxes = []; pending = []; notified = false }

module _ (t : Templates) (input : DagInput) where
  abbrev pub preflighted : Result String → Option Reason
  preflighted (ok s) = none
  preflighted (err e) = some (no_credentials e)

  -- The preflight of the credentials: `none` if there are none or they are all there.
  abbrev pub preflight : List String → Run (Option Reason)
  preflight [] = pure none
  preflight (n ∷ ns) = do
    r ← call (validate_credentials input.team_id (n ∷ ns))
    pure (preflighted r)

  unfoldable pub check_credentials : Option AgentProfileBody → Run (Option Reason)
  unfolding all_credentials
  check_credentials profile = preflight (all_credentials input.workflow_def.steps profile)

  -- The deferred clean-up of the sandbox groups, in the order of their names.
  unfoldable pub cleanup_groups : List (String × String) → Run (Unit {0})
  cleanup_groups [] = pure tt
  cleanup_groups ((group, sandbox) ∷ rest) = do call (cleanup_sandbox sandbox); cleanup_groups rest

  abbrev pub start_state : State
  start_state = record no_state { pending = all_pending input.workflow_def.steps [] }

  -- The loop, and then the clean-up.
  unfoldable pub run_loop : Option AgentProfileBody → Run (Exit × State)
  run_loop profile = do
    r ← dag_loop t input profile (length input.workflow_def.steps) start_state
    cleanup_groups (sort_by (λ g. g.0) r.1.sandboxes)
    pure r

  -- What follows the preflight of the credentials.
  abbrev pub checked_loop : Option AgentProfileBody → Option Reason → Run (Exit × State)
  checked_loop profile (some e) = pure (stopped e, no_state)
  checked_loop profile none = run_loop profile

  abbrev pub with_profile : Option AgentProfileBody → Run (Exit × State)
  with_profile profile = do checked ← check_credentials profile; checked_loop profile checked

  -- What follows the profile's activity.
  abbrev pub profiled : Result AgentProfileBody → Run (Exit × State)
  profiled (err e) = pure (stopped (no_profile e), no_state)
  profiled (ok profile) = with_profile (some profile)

  -- The body, from the profile on.
  unfoldable pub dag_body : Run (Exit × State)
  dag_body = if input.workflow_def.agent_profile == "" then with_profile none else (do
    r ← call_profile (resolve_agent_profile input.team_id input.workflow_def.agent_profile)
    profiled r)

  -- `finalStatus` and `finalError`
  abbrev pub final_status : Exit → RunStatus
  final_status (stopped e) = if (error_of e).canceled then RunStatus.cancelled else RunStatus.failed
  final_status exit = RunStatus.complete

  abbrev pub final_error : Exit → String
  final_error (stopped e) = if (error_of e).canceled then "" else (error_of e).text
  final_error exit = ""

  abbrev final_summary : RunStatus → String → String
  final_summary RunStatus.failed error =
      if error == "" then "Run failed" else "Run failed: " +++ error
  final_summary status error = "Run completed successfully"

  abbrev pub wants_notification : RunStatus → Bool → Bool
  wants_notification RunStatus.cancelled notified = false
  wants_notification RunStatus.failed notified = not notified
  wants_notification status notified = true

  abbrev artifact_or_none : Result String → String
  artifact_or_none (ok id) = id
  artifact_or_none (err e) = ""

  abbrev pub notify : RunStatus → String → Run (Unit {0})
  notify status error = do
    a ← call (get_primary_run_artifact_id input.run_id)
    call (
        create_inbox_item input.team_id input.run_id "output_ready"
          (if input.workflow_def.title == ""
            then input.workflow_template_id
            else input.workflow_def.title)
          (final_summary status error) (artifact_or_none a) "")
    pure tt

  -- The deferred end of a run.
  unfoldable pub finish_run : Exit → Bool → Run (Unit {0})
  finish_run exit notified = do
    call (update_run_status input.run_id (final_status exit) (final_error exit))
    if wants_notification (final_status exit) notified
        then notify (final_status exit) (final_error exit)
        else pure tt

  -- What follows the first activity.
  abbrev pub marked : Result String → Run Exit
  marked (err e) = pure (stopped (not_marked e))
  marked (ok s) = do ended ← dag_body; finish_run ended.0 ended.1.notified; pure ended.0

  -- `DAGWorkflow`
  unfoldable pub dag_workflow : Run Exit
  dag_workflow = do r ← call (update_run_status input.run_id RunStatus.running ""); marked r
