-- ===== src/Step/Rounds.antt =====
-- internal/workflow/step.go: one round of the loop of `StepWorkflow`: execute, ask a human and resume
-- in a fresh sandbox if the agent asks for input, verify, and decide whether to pause.
use fleetlift.Prelude.{
  String, Bool, true, false, not, ◌||◌, Option, none, some, List, [], ◌∷◌, if◌then◌else◌, ◌==◌,
  lookup,
}
use fleetlift.Prelude.Text.{◌+++◌}
use fleetlift.Model.{
  as_bool, StepStatus, is_awaiting, StepResult, StepDef, AgentProfileBody, bare_result,
}
use fleetlift.Engine.{
  Result, ok, err, Run, StepInput, Activity, provision_sandbox, run_preflight, execute_step,
  verify_step, update_step_status,
}
use fleetlift.Step.Resume.{Turn, leave, pause, fail, error, or_error, resume}
use fleetlift.Engine.Monad.{◌>>=◌, pure, call, call_result, call_dirs}

pub data Signal : Type 0 where
  approve reject cancel : Signal
  steer : (prompt : String) → Signal

-- `shouldPause`
unfoldable pub should_pause : StepDef → StepResult → Bool
unfolding lookup
should_pause def output =
    if def.approval_policy == "always"
    then true
    else if def.approval_policy == "never" || def.approval_policy == ""
    then false
    else if def.approval_policy == "agent"
    then as_bool (lookup "needs_review" output.output)
    else if def.approval_policy == "on_changes"
    then not (output.diff == "")
    else false

unfoldable pub open_sandbox : StepInput → Run (Result String)
open_sandbox input =
    if input.sandbox_id == "" then call (provision_sandbox input) else pure (ok input.sandbox_id)

abbrev empty_profile : AgentProfileBody
empty_profile = record { plugins = []; skills = []; mcps = [] }

abbrev profile_or_empty : Option AgentProfileBody → AgentProfileBody
profile_or_empty none = empty_profile
profile_or_empty (some p) = p

abbrev wants_preflight : Option AgentProfileBody → List String → Bool
wants_preflight none [] = false
wants_preflight none (u ∷ us) = true
wants_preflight (some p) us = true

unfoldable pub preflight : StepInput → String → Run (Result (List String))
preflight input sandbox =
    let opts = input.resolved_opts in
    if wants_preflight opts.effective_profile opts.eval_plugin_urls
    then call_dirs (
        run_preflight (record {
          sandbox_id = sandbox;
          team_id = input.team_id;
          profile = profile_or_empty opts.effective_profile;
          eval_plugin_urls = opts.eval_plugin_urls;
        }))
    else pure (ok [])

abbrev pub execute : StepInput → String → List String → String → Activity
execute input sandbox dirs conversation = execute_step (record {
  step_input = input;
  sandbox_id = sandbox;
  prompt = input.resolved_opts.prompt;
  conversation_history = conversation;
  continuation_context = none;
  eval_plugin_dirs = dirs;
})

-- The approval policy, and the status that the database shows while the step waits.
unfoldable pub ask_approval : StepInput → StepResult → Run Turn
unfolding should_pause
ask_approval input output =
    if should_pause input.step_def output
    then (do
      r ← call (update_step_status input.step_run_id StepStatus.awaiting_input)
      or_error "set step status to awaiting_input" r (λ _. pure (pause output)))
    else pure (leave output)

abbrev pub verified : StepInput → StepResult → Result String → Run Turn
verified input output (ok s) = ask_approval input output
verified input output (err e) =
    pure
      (fail (bare_result input.step_def.id StepStatus.failed ("verification failed: " +++ e.text)))

unfoldable pub verify : StepInput → String → StepResult → Run Turn
unfolding ask_approval
verify input sandbox output = elim input.resolved_opts.verifiers [
  | none ↦ ask_approval input output
  | some v ↦ do r ← call (verify_step sandbox input.step_run_id v); verified input output r
]

abbrev pub executed : StepInput → String → List String → Result StepResult → Run Turn
executed input sandbox dirs (err e) = pure (error e)
executed input sandbox dirs (ok output) =
    if is_awaiting output.status then resume input dirs output else verify input sandbox output

-- One round of the loop; `conversation` is the history that steering has built up.
unfoldable pub round : StepInput → String → List String → String → Run Turn
round input sandbox dirs conversation = do
  r ← call_result (execute input sandbox dirs conversation)
  executed input sandbox dirs r
