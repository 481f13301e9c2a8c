-- ===== src/Lib.antt =====
-- FleetLift runs workflows of agent and action steps on Temporal. This library models its workflow
-- engine: what a template must satisfy, how a run goes through its steps, and how one step goes from
-- its sandbox to its pull request.
--
-- The parts and their files:
--   * Prelude: Boolean tests, lists, association lists, counting, texts and sorting that the parts share.
--   * Model: the records of internal/model (workflow.go, step.go, run.go, agent_profile.go). `StepOutput`
--     of step.go is `StepResult` with the list `Outputs`, which only `aggregateFanOut` fills.
--   * Engine: the activities and inputs of internal/workflow/step.go and internal/model/continuation.go,
--     and what Temporal gives a workflow. A workflow is a function from a `World`, which answers each
--     activity by all that has happened before it, and from the history so far, to a result and the
--     longer history. A retry, a timeout or a failed worker is one of the answers. Only the activities
--     that the workflows issue stand in the history.
--   * Validate: internal/workflow/validate.go. Structure is `validateStructure`, Kahn its cycle detection,
--     Fields the checks of parameters, agent types, sandbox groups and credential names, Upstream is
--     `upstreamOf`, Parsed the walkers over the trees of text/template/parse, and Refs the checks of
--     action types and template references with `ValidateWorkflow`. A panic of the code, from the nil
--     `ElseList` that `jsonParamsWithoutToJSON` reads, is `none`; Parsed.Panics and Refs.Panics are on it.
--   * Actions: internal/model/action_contract.go, the registry of action types; Builtin holds its contracts.
--   * Shell: internal/shellquote/quote.go, `Quote`, with the rules by which a shell reads words.
--   * Activities: internal/activity/execute.go, `ExecuteStep`, with the log buffer of status.go. Box is the
--     state that it changes, a list of effects with the variables `seq` and `buf`, and what it relies on,
--     a `Host`; Structured is the agent's output and its schema, Execute.Clone the commands before the
--     agent, Execute.Agent its prompt and events. The database is taken to be there, and the periodic
--     heartbeats are left out. Verify is internal/activity/verify.go, Preflight is
--     internal/activity/preflight.go, and Status the rows that the SQL statements of status.go change.
--   * Profiles: internal/model/agent_profile.go, `MergeProfiles`. Profiles.Resolve:
--     internal/activity/profiles.go, `ResolveAgentProfile`, and profiles_db.go, `GetProfile`.
--     Profiles.Layers has the proofs on these.
--   * Step: internal/workflow/step.go. `step_workflow` is `StepWorkflow`: `round` is one turn of its loop,
--     `resume` the continuation after a request for input, `close_step` what follows the loop, and
--     `mark_failed` the deferred function. The operator's signals are a list in the order in which the
--     selector takes them.
--   * Dag: internal/workflow/dag.go. `dag_workflow` is `DAGWorkflow`, `finish_run` and `cleanup_groups` its
--     deferred functions, `dag_loop` its loop, `run_step` the body of a coroutine; Ready, FanOut and
--     Resolve are the functions below it. `DAGWorkflow` starts `StepWorkflow` as a child through the
--     activity `run_step_workflow` and sees only what it returns.
--   * Crypto: internal/crypto/aes.go.
--   * Samples: runs on small inputs.
--
-- Bounds and fuel: `dag_loop` runs on as much fuel as there are steps and `kahn` on one more than there
-- are ids, and `search_up` on one more than there are dependencies; that this is enough is a theorem. `skip_downstream` takes as much as there are pending steps,
-- since each call that it makes of itself removes one. Costs are counts, and of a floating-point value
-- only its text and whether it is whole are kept.
--
-- Not modelled: text/template and JSON, which are the parameters `Templates`, `Parse` and fields of
-- `Host`; the interleaving of the
-- coroutines of a round, which share nothing but the outputs they read; timeouts and retry policies;
-- activities but `ExecuteStep`, `RunPreflight`, `VerifyStep` and the updates of status.go; agents, sandboxes, the HTTP server, the database,
-- and the web interface, which the workflows only reach through activities. A successful activity is
-- taken to return an output and a coroutine to set its result, so the branches for nil ones in
-- `StepWorkflow` and in the collection of results are left out; `aggregateFanOut` has its own.
pub mod Prelude
pub mod Model
pub mod Engine
pub mod Validate
pub mod Actions
pub mod Shell
pub mod Activities
pub mod Step
pub mod Dag
pub mod Profiles
pub mod Crypto
pub mod Samples
