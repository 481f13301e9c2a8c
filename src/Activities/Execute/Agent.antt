-- ===== src/Activities/Execute/Agent.antt =====
-- internal/activity/execute.go: the prompt of the agent, and its events.
use fleetlift.Prelude.{
  String, Bool, ◌&&◌, Option, none, some, List, [], ◌∷◌, contains, if◌then◌else◌, ◌==◌,
}
use fleetlift.Prelude.Text.{◌+++◌, join}
use fleetlift.Model.{Value, Values, Fields, Map, RepoRef}
use fleetlift.Engine.{ExecuteStepInput, ContinuationContext}
use fleetlift.Activities.Box.{
  Host, Act, Answer, done, fails, Event, RunOpts, heartbeat, run_agent, perform, add, flush,
  next_seq, pure, ◌>>◌,
}
use fleetlift.Activities.Structured.{type_of}
use fleetlift.Activities.Execute.Clone.{repo_dir}

-- `buildContinuationPrompt`
abbrev pub build_continuation_prompt : Host → String → Option ContinuationContext → String
build_continuation_prompt w prompt none = prompt
build_continuation_prompt w prompt (some cc') =
    "[CONTINUATION CONTEXT]\nPrevious step asked: "
    +++ w.quoted cc'.question
    +++ "\nHuman answered: "
    +++ w.quoted cc'.human_answer
    +++ "\n\nYour working state has been preserved. If a checkpoint branch was provided, your working directory already contains your previous changes.\n[END CONTINUATION CONTEXT]\n\n"
    +++ prompt

-- The example of a value of a type.
abbrev pub placeholder : String → Value
placeholder type =
    if type == "array"
    then Value.arr (Values.cons (Value.str "<array>") Values.nil)
    else if type == "boolean"
    then Value.str "<boolean>"
    else if type == "number"
    then Value.str "<number>"
    else if type == "object"
    then Value.obj Fields.end
    else Value.str "<string>"

abbrev pub example_parts : Host → Map → List String
example_parts w [] = []
example_parts w ((k, t) ∷ schema) =
    (w.marshal (Value.str k) +++ ": " +++ w.marshal (placeholder (type_of t)))
    ∷ example_parts w schema

-- `appendOutputSchemaInstructions`
unfoldable pub append_output_schema_instructions : Host → String → Map → String
unfolding join
append_output_schema_instructions w prompt [] = prompt
append_output_schema_instructions w prompt (entry ∷ schema) =
    prompt
    +++ "\n\nIMPORTANT: At the end of your response, you MUST output a JSON object with exactly these fields,\nwrapped in a ```json fenced code block:\n\n"
    +++ "{"
    +++ join ", " (example_parts w (entry ∷ schema))
    +++ "}"
    +++ "\n\nThis structured output is required for downstream workflow steps."

-- `if event.Type == "" && event.Content == ""`
abbrev pub is_noise : Event → Bool
is_noise e = e.type == "" && e.content == ""

-- One event: the heartbeat, the buffer and the number.
abbrev pub note_event : Event → Act Unit
note_event e = perform (heartbeat ("agent running: " +++ e.type)) >> add e.content >> next_seq

-- The loop over the events; `last` is the output of the latest completion, `none` without one.
unfoldable pub read_events : List Event → Option Map → Act (Answer (Option Map))
read_events [] last = flush >> pure (done last)
read_events (e ∷ es) last =
    if is_noise e
    then read_events es last
    else (note_event e
        >> (if e.type == "error"
            then flush >> pure (fails ("agent error: " +++ e.content))
            else read_events es (if e.type == "complete" then some e.output else last)))

module _ (input : ExecuteStepInput) where
  -- The prompt with what stands before and after it.
  abbrev pub full_prompt : Host → String
  full_prompt w =
      let continued = build_continuation_prompt w input.prompt input.continuation_context in
      let whole =
        if input.conversation_history == ""
        then continued
        else input.conversation_history +++ "\n\n" +++ continued in
      elim input.step_input.step_def.execution [
        | none ↦ whole
        | some e ↦ elim e.output [
          | none ↦ whole
          | some schema ↦ append_output_schema_instructions w whole schema
        ]
      ]

  abbrev pub work_dir : List RepoRef → String
  work_dir (repo ∷ []) = repo_dir repo
  work_dir _ = "/workspace"

  abbrev pub run_opts : Host → RunOpts
  run_opts w = record {
    prompt = full_prompt w;
    work_dir = work_dir input.step_input.resolved_opts.repos;
    max_turns = input.step_input.resolved_opts.max_turns;
    model = input.step_input.model_override;
    eval_plugin_dirs = input.eval_plugin_dirs;
  }

  abbrev pub begun : Answer (List Event) → Act (Answer (Option Map))
  begun (fails text) = pure (fails ("start agent: " +++ text))
  begun (done es) = read_events es none

  -- `runner.Run` and the loop over its events; the heartbeats of the ticker are left out.
  unfoldable pub start_agent : Act (Answer (Option Map))
  unfolding append_output_schema_instructions read_events
  start_agent w b =
      if contains w.runners input.step_input.resolved_opts.agent
      then (let t = run_agent (run_opts w) ∷ b.trace in
          begun (w.events t) w (record b { trace = t }))
      else (fails ("unknown agent: " +++ input.step_input.resolved_opts.agent), b)
