-- ===== src/Dag/Resolve.antt =====
-- internal/workflow/dag.go: `resolveStep`, `resolveRepos` and `evalCondition`.
use fleetlift.Prelude.{String, Bool, true, false, none, some, List, [], ◌∷◌, if◌then◌else◌, ◌==◌}
use fleetlift.Prelude.Text.{◌+++◌, trim_space}
use fleetlift.Model.{Value, str, Map, as_string, StepDef, RepoRef, PrDef}
use fleetlift.Engine.{Result, ok, err, wrap, ResolvedStepOpts}
use fleetlift.Dag.Data.{Outputs, Templates}

-- `if err != nil { return ..., fmt.Errorf("prefix: %w", err) }`
infixl 5 ◌>>=◌
abbrev ◌>>=◌ : {A B : Type 0} → Result A → (A → Result B) → Result B
ok a >>= f = f a
err e >>= f = err e

abbrev because : {A : Type 0} → String → Result A → Result A
because prefix (ok a) = ok a
because prefix (err e) = err (wrap prefix e)

module _ (t : Templates) (params : Map) (outputs : Outputs) where
  -- The text that is rendered: a string as it is, anything else as JSON.
  abbrev repos_text : Value → Result String
  repos_text (str s) = ok s
  repos_text v = because "marshal repositories" (t.marshal v)

  unfoldable pub resolve_repos : Value → Result (List RepoRef)
  resolve_repos raw = do
    text ← repos_text raw
    rendered ← because "render repositories template" (t.render text params outputs)
    because "parse repositories as []RepoRef" (t.parse_repos rendered)

  abbrev step_repos : StepDef → Result (List RepoRef)
  step_repos step = elim step.repositories [
    | none ↦ ok []
    | some raw ↦ because ("resolve repos for step " +++ step.id) (resolve_repos raw)
  ]

  abbrev no_opts : StepDef → ResolvedStepOpts
  no_opts step = record {
    prompt = "";
    repos = [];
    verifiers = none;
    credentials = [];
    pr_config = none;
    agent = "";
    max_turns = 0;
    sandbox_group_image = "";
    sandbox_spec = step.sandbox;
    effective_profile = none;
    eval_plugin_urls = [];
  }

  -- The part for a step with an execution.
  abbrev resolve_execution : StepDef → Result ResolvedStepOpts
  resolve_execution step = elim step.execution [
    | none ↦ ok (no_opts step)
    | some e ↦ do
      prompt ← because ("render prompt for step " +++ step.id) (t.render e.prompt params outputs)
      repos ← step_repos step
      ok (record (no_opts step) {
        prompt = prompt;
        agent = if e.agent == "" then "claude-code" else e.agent;
        verifiers = e.verifiers;
        credentials = e.credentials;
        max_turns = e.max_turns;
        repos = repos;
      })
  ]

  abbrev resolve_pr : StepDef → PrDef → Result PrDef
  resolve_pr step pr = do
    prefix ←
        because ("render pull_request.branch_prefix for step " +++ step.id)
          (t.render pr.branch_prefix params outputs)
    title ←
        because ("render pull_request.title for step " +++ step.id)
          (t.render pr.title params outputs)
    body ←
        because ("render pull_request.body for step " +++ step.id) (t.render pr.body params outputs)
    ok (record pr { branch_prefix = prefix; title = title; body = body })

  unfoldable pub resolve_step : StepDef → Result ResolvedStepOpts
  unfolding resolve_repos
  resolve_step step = do
    opts ← resolve_execution step
    elim step.pull_request [
      | none ↦ ok opts
      | some pr ↦ do pr' ← resolve_pr step pr; ok (record opts { pr_config = some pr' })
    ]

  unfoldable pub eval_condition : String → Bool
  unfolding trim_space
  eval_condition condition =
      if condition == "" then true else elim (t.render_condition condition params outputs) [
        | none ↦ false
        | some text ↦ trim_space text == "true"
      ]

  -- The rendering of `eval_plugins`, in order.
  unfoldable pub render_plugins : StepDef → List String → Result (List String)
  render_plugins step [] = ok []
  render_plugins step (url ∷ urls) = do
    rendered ← because ("render eval_plugin for step " +++ step.id) (t.render url params outputs)
    rest ← render_plugins step urls
    ok (rendered ∷ rest)

  abbrev eval_plugins : StepDef → List String
  eval_plugins step = elim step.execution [ none ↦ [] | some e ↦ e.eval_plugins ]

  -- The resolved options with the plugins' addresses.
  unfoldable pub resolve_all : StepDef → Result ResolvedStepOpts
  unfolding resolve_step render_plugins
  resolve_all step = do
    opts ← resolve_step step
    urls ← render_plugins step (eval_plugins step)
    ok (record opts { eval_plugin_urls = urls })

  -- The texts of an action's configuration, in the order of its keys.
  unfoldable pub render_config : Map → Result Map
  render_config [] = ok []
  render_config ((k, v) ∷ rest) = do
    v' ← elim (as_string v) [
      | none ↦ ok v
      | some s ↦ do
        rendered ← because ("render action config " +++ k) (t.render s params outputs)
        ok (str rendered)
    ]
    rest' ← render_config rest
    ok ((k, v') ∷ rest')
