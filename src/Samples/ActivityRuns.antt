-- ===== src/Samples/ActivityRuns.antt =====
-- Runs of `ExecuteStep` and its parts on small inputs, and of the workflows over it.
use fleetlift.Prelude.{
  String, ◌≡◌, ◌≢◌, refl, ap, true, false, none, some, List, [], ◌∷◌, ◌++◌, lookup, has, map, arith,
}
use fleetlift.Prelude.Text.{join}
use fleetlift.Model.{Value, Map, StepResult, RepoRef}
use fleetlift.Engine.{
  History, World, Result, ok, err, failure, ExecuteStepInput, execute_step as execute_activity,
}
use fleetlift.Shell.{words_of, is_blank, is_special}
use fleetlift.Shell.Laws.{Piece, plain, quoted, print, text_of, words_of-join}
use fleetlift.Activities.Box.{Host, Box, Event, Answer, done, fails, valid}
use fleetlift.Activities.Names.{repo_name, has_slash, repo_name-named}
use fleetlift.Activities.Structured.{
  enforce_output_schema, parse_text, result_text, build_json_schema,
}
use fleetlift.Activities.Structured.Laws.{only_if, enforce_output_schema-done}
use fleetlift.Activities.Execute.{execute_step, schema_of}
use fleetlift.Activities.Execute.Clone.{clone_command, repo_dir}
use fleetlift.Activities.Execute.Commands.{branch_words, clone_command-words}
use fleetlift.Activities.Execute.Laws.{Gives, execute_step-Reports}
use fleetlift.Activities.Execute.Numbers.{Numbered, execute_step-Numbered}
use fleetlift.Activities.Execute.Agents.{agents, RunsOnce, execute_step-RunsOnce}
use fleetlift.Step.{step_workflow}
use fleetlift.Step.Rounds.{approve}
use fleetlift.Step.Own.Turns.{ExecutesSteps, OwnOutcome}
use fleetlift.Step.Own.{step_workflow-own}
use fleetlift.Samples.{fix, input, opts, calm}

-- A command with a quoted text that has a quote and blanks in it.
abbrev commit : List Piece
commit = plain "git" ∷ plain "commit" ∷ plain "-m" ∷ quoted "it's; rm -rf /" ∷ []

words_of-join_example : words_of (join " " (map print commit)) ≡ some (map text_of commit)
unfolding is_blank is_special
words_of-join_example = words_of-join commit (refl, (refl, (refl, (tt, tt))))

abbrev app : RepoRef
app = record {
  url = "https://github.com/org/app.git";
  branch = "main";
  ref = "";
  name = "";
  create_branch = "";
}

repo_name-named_example : (repo_name app ≢ "") × (app.name ≡ "" → has_slash (repo_name app) ≡ false)
repo_name-named_example = repo_name-named app

abbrev finished : Event
finished = record {
  type = "complete";
  content = "";
  output = ("result", Value.str "{\"title\": \"x\"}") ∷ [];
}

abbrev said : String → Event
said text = record { type = "stdout"; content = text; output = [] }

clone_command-words_example :
    words_of (clone_command app)
    ≡ some ("git" ∷ "clone" ∷ "--depth" ∷ "50" ∷ branch_words "main" ++ app.url ∷ repo_dir app ∷ [])
clone_command-words_example = clone_command-words app

-- A sandbox in which each clone stands and the agent says a word.
abbrev pub host : Host
host = record {
  attempt = 1;
  answer = λ t. record { stdout = "ref"; stderr = ""; error = none };
  runners = "claude-code" ∷ [];
  events = λ t. done (said "hello" ∷ finished ∷ []);
  second_passed = λ t. false;
  set_fails = λ t. none;
  status_now = λ t. some "running";
  request = λ t. ("", "");
  checkpoint = λ t. ("", "");
  quoted = λ s. s;
  marshal = λ v. "";
  unmarshal = λ s. some (("title", Value.str "x") ∷ ("more", Value.null) ∷ []);
  fenced = λ s. [];
  bare = λ s. s ∷ [];
  verdict = λ schema out. valid;
  is_zero = λ s. true;
  as_int = λ s. s;
  cost = λ s. 0;
}

abbrev pub box : Box
box = record { trace = []; seq = 0; lines = [] }

abbrev asked_for : ExecuteStepInput
asked_for = record {
  step_input = record input { resolved_opts = record opts { repos = app ∷ [] } };
  sandbox_id = "s";
  prompt = "Fix it";
  conversation_history = "";
  continuation_context = none;
  eval_plugin_dirs = [];
}

abbrev title_schema : Map
title_schema = ("title", Value.str "string") ∷ []

title_passes :
    enforce_output_schema host finished.output title_schema ≡ done (("title", Value.str "x") ∷ [])
unfolding enforce_output_schema
title_passes = refl

enforce_output_schema-done_example :
    ((parsed : Map) × (parse_text host (result_text finished.output) ≡ some parsed)
      × ((k : String)
          → lookup k (("title", Value.str "x") ∷ [])
            ≡ only_if (has k title_schema) (lookup k parsed)))
    × (host.verdict (build_json_schema title_schema) (("title", Value.str "x") ∷ []) ≡ valid)
enforce_output_schema-done_example =
    enforce_output_schema-done host finished.output title_schema (("title", Value.str "x") ∷ [])
      title_passes

execute_step-Reports_example : Gives fix.id (schema_of fix) host (execute_step asked_for host box).0
execute_step-Reports_example = execute_step-Reports asked_for host box

box-Numbered : Numbered box
box-Numbered = record { emptied = refl; ascends = omega arith }

execute_step-Numbered_example : Numbered (execute_step asked_for host box).1
execute_step-Numbered_example = execute_step-Numbered asked_for host box box-Numbered

execute_step-RunsOnce_example :
    RunsOnce asked_for host 0 (agents (execute_step asked_for host box).1.trace)
execute_step-RunsOnce_example = execute_step-RunsOnce asked_for host box

-- The world in which ExecuteStep is the activity.
abbrev answered : Answer StepResult → Result StepResult
answered (done r) = ok r
answered (fails text) = err (failure text)

abbrev latest : History → Result StepResult
latest (execute_activity e ∷ h) = answered (execute_step e host box).0
latest h = err (failure "no result")

abbrev real : World
real = record calm { result = latest }

answered-done : (a : Answer StepResult) (r : StepResult) → answered a ≡ ok r → a ≡ done r
answered-done (done x) r e = ap done (Result-injective e)
  where
    Result-injective : {x y : StepResult} → ok x ≡ ok y → x ≡ y
    Result-injective e' = cc
answered-done (fails text) r e = cc

real-ExecutesSteps : ExecutesSteps real
real-ExecutesSteps e h out is_ok = (host, box, answered-done (execute_step e host box).0 out is_ok)

step_workflow-own_example : OwnOutcome fix.id (step_workflow input (approve ∷ []) real []).0
step_workflow-own_example = step_workflow-own real real-ExecutesSteps input (approve ∷ []) []
