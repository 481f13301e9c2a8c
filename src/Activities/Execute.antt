-- ===== src/Activities/Execute.antt =====
-- internal/activity/execute.go: `ExecuteStep`, which clones the repositories and runs the agent.
pub mod Clone
pub mod Agent
pub mod Laws
pub mod Logs
pub mod Kept
pub mod Closing
pub mod Commands
pub mod Numbers
pub mod Agents
use fleetlift.Prelude.{
  ℕ, String, Bool, true, false, not, ◌&&◌, Option, none, some, List, [], ◌∷◌, lookup, contains,
  if◌then◌else◌, ◌==◌,
}
use fleetlift.Prelude.Text.{◌+++◌, join, starts_with}
use fleetlift.Shell.{quote}
use fleetlift.Model.{Value, Map, as_bool, StepStatus, StepResult, bare_result, RepoRef, StepDef}
use fleetlift.Engine.{ExecuteStepInput, StepInput}
use fleetlift.Activities.Box.{
  Host, Box, Act, Answer, done, fails, Event, ExecAnswer, exec, heartbeat, perform, exec_in,
  update_step_status, pure, ◌>>=◌, ◌>>◌,
}
use fleetlift.Activities.Structured.{
  extract_structured_output, enforce_output_schema, extract_cost_usd, text_or_none, type_of,
}
use fleetlift.Activities.Execute.Clone.{then_done, repo_dir, clone_all, banner, checkout_all}
use fleetlift.Activities.Execute.Agent.{start_agent}

-- A result of the step with an error, and with the agent's output.
abbrev pub failed_with : String → Host → Map → String → Map → StepResult
failed_with id w raw error output = record (bare_result id StepStatus.failed error) {
  output = output;
  cost_usd = extract_cost_usd w raw;
}

-- The answer that awaits the operator's input.
abbrev pub awaiting : String → String × String → String × String → StepResult
awaiting id request checkpoint = record (bare_result id StepStatus.awaiting_input "") {
  inbox_item_id = request.0;
  question = request.1;
  checkpoint_branch = checkpoint.0;
  state_artifact_id = checkpoint.1;
}

abbrev pub or_default : String → String → String
or_default d s = if s == "" then d else s

-- The agent's own account of an error.
abbrev pub reported_error : Map → String
reported_error raw = elim (lookup "result" raw) [
  | none ↦ "agent reported an error"
  | some v ↦ or_default "agent reported an error" (type_of v)
]

-- The exit code, printed, if it is a number other than zero.
abbrev pub exit_code : Host → Option Value → Option String
exit_code w (some (Value.float text whole)) = if w.is_zero text then none else some (w.as_int text)
exit_code w _ = none

abbrev pub with_diff : ExecAnswer → List String → List String
with_diff a rest = elim a.error [
  | some text ↦ rest
  | none ↦ if a.stdout == "" then rest else a.stdout ∷ rest
]

-- The differences of the repositories; one that is not to be had is left out.
unfoldable pub diffs : List RepoRef → Act (List String)
diffs [] = pure []
diffs (repo ∷ repos) = exec_in ("git -C " +++ quote (repo_dir repo) +++ " diff") "/" >>= λ a.
    diffs repos >>= λ rest. pure (with_diff a rest)

-- The schema of the step's output, if it declares one.
abbrev pub schema_of : StepDef → Option Map
schema_of s = elim s.execution [ none ↦ none | some e ↦ e.output ]

abbrev pub completed : String → Host → Map → Map → String → StepResult
completed id w raw output diff = record (bare_result id StepStatus.complete "") {
  output = output;
  diff = diff;
  cost_usd = extract_cost_usd w raw;
}

abbrev pub enforced : String → Host → Map → String → Answer Map → StepResult
enforced id w raw diff (fails text) = failed_with id w raw text (extract_structured_output w raw)
enforced id w raw diff (done out) = completed id w raw out diff

abbrev pub conclude : String → Option Map → Map → String → Host → StepResult
conclude id none raw diff w = completed id w raw (extract_structured_output w raw) diff
conclude id (some schema) raw diff w = enforced id w raw diff (enforce_output_schema w raw schema)

module _ (input : ExecuteStepInput) where
  abbrev pub step_id : String
  step_id = input.step_input.step_def.id

  abbrev pub repos : List RepoRef
  repos = input.step_input.resolved_opts.repos

  -- After an agent that has ended well, with its last output.
  abbrev pub report : Map → Act (Answer StepResult)
  report raw w b =
      if as_bool (lookup "is_error" raw)
      then (done (failed_with step_id w raw (reported_error raw) raw), b)
      else elim (exit_code w (lookup "exit_code" raw)) [
        | some code ↦
            (done (failed_with step_id w raw ("command exited with code " +++ code) raw), b)
        | none ↦
            let (parts, b') = diffs repos w b in
            (
              done (conclude step_id (schema_of input.step_input.step_def) raw (join "\n" parts) w),
              b',
            )
      ]

  -- `dbStatus == "awaiting_input"`
  abbrev pub is_waiting : Option String → Bool
  is_waiting none = false
  is_waiting (some status) = status == "awaiting_input"

  -- The output of the agent's latest completion, `none` if there was none.
  abbrev pub ended : Option Map → Act (Answer StepResult)
  ended none =
      pure (done (bare_result step_id StepStatus.failed "agent exited without producing a result"))
  ended (some raw) = report raw

  -- After the agent's last event.
  abbrev pub after_agent : Option Map → Act (Answer StepResult)
  after_agent last w b =
      if is_waiting (w.status_now b.trace)
      then (done (awaiting step_id (w.request b.trace) (w.checkpoint b.trace)), b)
      else ended last w b

  -- `!strings.HasPrefix(repo.URL, "https://")`, of the first such repository
  unfoldable pub insecure : List RepoRef → Option String
  unfolding starts_with
  insecure [] = none
  insecure (repo ∷ rest) = if starts_with "https://" repo.url then insecure rest else some repo.url

  abbrev pub prepared : Act (Answer StepResult)
  prepared =
      banner
      >> then_done (clone_all input.step_input.run_id repos) λ u.
        then_done (checkout_all input.continuation_context repos) λ v.
          perform (heartbeat "running agent")
          >> update_step_status StepStatus.running
          >> then_done (start_agent input) after_agent

  abbrev pub unless_insecure : Option String → Act (Answer StepResult)
  unless_insecure (some url) w b =
      (fails ("repo URL must use https:// scheme, got: " +++ w.quoted url), b)
  unless_insecure none w b = prepared w b

  -- `ExecuteStep`
  unfoldable pub execute_step : Act (Answer StepResult)
  unfolding insecure diffs clone_all checkout_all start_agent extract_structured_output
      enforce_output_schema extract_cost_usd lookup join
  execute_step = unless_insecure (insecure repos)
