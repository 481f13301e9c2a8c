-- ===== src/Activities/Preflight.antt =====
-- internal/activity/preflight.go: `RunPreflight`, with the clones of the plugins under evaluation.
pub mod Script
pub mod Url
pub mod Export
pub mod Dirs
use Prim.Native.String.{count}
use fleetlift.Prelude.{
  ℕ, zero, suc, ◌+◌, String, Bool, true, false, not, ◌&&◌, Option, none, some, List, [], ◌∷◌, ◌++◌,
  contains, keys, leb, eqb, if◌then◌else◌, ◌==◌,
}
use fleetlift.Prelude.Text.{◌+++◌, show, starts_with}
use fleetlift.Validate.Names.{matches_credential}
use fleetlift.Shell.{quote}
use fleetlift.Model.{PluginSource, McpConfig, Header, AgentProfileBody}
use fleetlift.Engine.{RunPreflightInput}
use fleetlift.Activities.Box.{
  Host, Box, Trace, Act, Answer, done, fails, ExecAnswer, exec_in, pure, ◌>>=◌, ◌>>◌,
}
use fleetlift.Activities.Execute.Clone.{go_on, then_done}
use fleetlift.Activities.Preflight.Url.{before_at, parse_github_tree_url}
use fleetlift.Activities.Preflight.Script.{
  Market, no_market, query_error, market, Store, build_preflight_script,
}

abbrev pub tmp_dir : ℕ → String
tmp_dir i = "/tmp/eval-plugin-" +++ show i

abbrev pub eval_command : (url dir path : String) → String
eval_command url dir path =
    "rm -rf "
    +++ quote dir
    +++ " && git clone --depth 1 --filter=blob:none --sparse "
    +++ quote url
    +++ " "
    +++ quote dir
    +++ " && cd "
    +++ quote dir
    +++ " && git sparse-checkout set "
    +++ quote path

abbrev pub prepend : {A : Type 0} → A → Answer (List A) → Answer (List A)
prepend a (fails text) = fails text
prepend a (done rest) = done (a ∷ rest)

-- The loop over the clones; the index is that of the message.
abbrev pub after_clone :
    ℕ
    → String × String
    → Act (Answer (List String))
    → ExecAnswer
    → Option String
    → Act (Answer (List String))
after_clone i clone more a (some text) =
    pure (fails ("clone eval plugin " +++ show i +++ ": " +++ text +++ "\nstderr: " +++ a.stderr))
after_clone i clone more a none = more >>= λ rest. pure (prepend clone.1 rest)

unfoldable pub clone_evals : ℕ → List (String × String) → Act (Answer (List String))
unfolding show
clone_evals i [] = pure (done [])
clone_evals i (clone ∷ clones) =
    exec_in clone.0 "/" >>= λ a. after_clone i clone (clone_evals (suc i) clones) a a.error

-- The credentials of the servers, each asked for once.
abbrev pub resolve_names :
    (String → String)
    → (String → Answer String)
    → List String
    → List (String × String)
    → Answer (List (String × String))
resolve_names quoted get [] creds = done creds
resolve_names quoted get (name ∷ names) creds =
    if contains (keys creds) name then resolve_names quoted get names creds else elim (get name) [
      | fails text ↦ fails ("resolve MCP credential " +++ quoted name +++ ": " +++ text)
      | done value ↦ resolve_names quoted get names (creds ++ (name, value) ∷ [])
    ]

abbrev pub mcp_names : List McpConfig → List String
mcp_names [] = []
mcp_names (mcp ∷ mcps) = mcp.credentials ++ mcp_names mcps

abbrev pub token_of : Answer String → Answer String
token_of (done token) = done token
token_of (fails text) = fails ("fetch marketplace credential: " +++ text)

abbrev pub market_token : Option String → Option (String → Answer String) → Answer String
market_token none get = done ""
market_token (some name) none = done ""
market_token (some name) (some get) = if name == "" then done "" else token_of (get name)

abbrev pub ran_script : ExecAnswer → Answer Unit
ran_script a = elim a.error [
  | none ↦ done tt
  | some text ↦ fails ("pre-flight script: " +++ text +++ "\nstderr: " +++ a.stderr)
]

abbrev pub run_script : String → Act (Answer Unit)
run_script script =
    if script == "" then pure (done tt) else (exec_in script "/" >>= λ a. pure (ran_script a))

abbrev pub clones_of : Answer (List (String × String)) → Act (Answer (List String))
clones_of (done clones) = clone_evals 0 clones
clones_of (fails text) = pure (fails ("build eval clone commands: " +++ text))

module _ (store : Store) where
  abbrev pub eval_clone : ℕ → String × String → String × String
  eval_clone i (url, path) = (eval_command url (tmp_dir i) path, store.join_path (tmp_dir i) path)

  -- `BuildEvalCloneCommands`, from an index on: the commands, each with its plugin's directory.
  unfoldable pub build_eval_clone_commands :
      (String → String) → ℕ → List String → Answer (List (String × String))
  unfolding starts_with parse_github_tree_url quote show
  build_eval_clone_commands quoted i [] = done []
  build_eval_clone_commands quoted i (raw ∷ raws) =
      let rest = build_eval_clone_commands quoted (suc i) raws in
      if starts_with "https://" raw
      then elim (parse_github_tree_url quoted raw) [
        | fails text ↦ fails ("parse eval plugin url " +++ quoted raw +++ ": " +++ text)
        | done parsed ↦ prepend (eval_clone i parsed) rest
      ]
      else fails ("eval_plugin url must use https:// scheme, got " +++ quoted raw)

  abbrev pub mcp_creds : (String → String) → List McpConfig → Answer (List (String × String))
  mcp_creds quoted mcps = elim store.credential [
    | none ↦ done []
    | some get ↦ resolve_names quoted get (mcp_names mcps) []
  ]

  -- The URL of the marketplace and the token for it.
  abbrev pub market_access : Market → Answer (String × String)
  market_access no_market = done ("", "")
  market_access (query_error text) = fails ("fetch marketplace config: " +++ text)
  market_access (market url credential) = elim (market_token credential store.credential) [
    | fails text ↦ fails text
    | done token ↦ done (url, token)
  ]

  abbrev pub with_creds :
      RunPreflightInput
      → String × String
      → (String → String)
      → Answer (List (String × String))
      → Act (Answer (List String))
  with_creds input access quoted (fails text) = pure (fails text)
  with_creds input access quoted (done creds) =
      then_done (run_script (build_preflight_script store input.profile access.0 access.1 creds))
        (λ u. clones_of (build_eval_clone_commands quoted 0 input.eval_plugin_urls))

  abbrev pub scripted : RunPreflightInput → Answer (String × String) → Act (Answer (List String))
  scripted input (fails text) w b = (fails text, b)
  scripted input (done access) w b =
      with_creds input access w.quoted (mcp_creds w.quoted input.profile.mcps) w b

  -- `RunPreflight`: the directories of the plugins under evaluation.
  unfoldable pub run_preflight : RunPreflightInput → Act (Answer (List String))
  unfolding build_preflight_script build_eval_clone_commands clone_evals
  run_preflight input = scripted input (market_access store.marketplace)
