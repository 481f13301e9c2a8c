-- ===== src/Samples/PreflightRuns.antt =====
-- Runs of the pre-flight, of the verification and of the database's rows on small inputs.
use fleetlift.Prelude.{ℕ, String, ◌≡◌, refl, ◌↔◌, true, false, ◌||◌, none, some, List, [], ◌∷◌}
use fleetlift.Prelude.Text.{◌+++◌}
use fleetlift.Model.{Value, Values, StepStatus}
use fleetlift.Engine.{RunPreflightInput}
use fleetlift.Shell.{words_of, words}
use fleetlift.Activities.Box.{LogLine, done, update_step_status}
use fleetlift.Activities.Names.{has_slash}
use fleetlift.Activities.Status.{
  StepRow, update_step_row, complete_step_row, insert_lines, has_seq, Artifact, keywords,
  primary_artifact, build_insert_logs_query,
}
use fleetlift.Activities.Status.Times.{created, waited, updated, completed, Timely, Written-Timely}
use fleetlift.Activities.Status.Table.{insert_lines-again}
use fleetlift.Activities.Status.Primary.{Among, bears_one, primary_artifact-Best}
use fleetlift.Activities.Verify.{
  verify_step, parse_verifiers, Pass, commands_of, after, verify_step-done,
}
use fleetlift.Activities.Preflight.{run_preflight}
use fleetlift.Activities.Preflight.Script.{Store, market, export_command}
use fleetlift.Activities.Preflight.Url.{
  github_prefix, parse_github_tree_url, parse_github_tree_url-done,
}
use fleetlift.Activities.Preflight.Export.{export_command-words}
use fleetlift.Activities.Preflight.Dirs.{Secure, run_preflight-Secure}
use fleetlift.Validate.Names.{matches_credential}
use fleetlift.Samples.ActivityRuns.{host, box}

words_tests :
    (words_of "echo $HOME" ≡ none)
    × (words_of "a\"b c\"  'd'\\'e" ≡ some ("ab c" ∷ "d'e" ∷ []))
    × (words_of "rm 'x" ≡ none)
unfolding words
words_tests = (refl, refl, refl)

abbrev checks : Value
checks =
    Value.arr (Values.cons (Value.str "make test") (Values.cons (Value.str "make lint") Values.nil))

verify_step-done_example :
    (((verify_step (some checks) host box).0 ≡ done tt)
      ↔ Pass host
          (update_step_status StepStatus.verifying host box).1.trace
          (parse_verifiers checks))
    × (commands_of (verify_step (some checks) host box).1.trace
        ≡ after (commands_of box.trace) (parse_verifiers checks))
verify_step-done_example = verify_step-done checks host box

abbrev new_row : StepRow
new_row = record {
  status = StepStatus.pending;
  output = [];
  diff = none;
  error_message = none;
  started_at = none;
  completed_at = none;
  cost_usd = none;
}

-- A row that is made at 5, runs at 8, and is complete at 8.
abbrev run_row : StepRow
run_row =
    complete_step_row 8 StepStatus.complete [] "" "" 3
      (update_step_row 8 StepStatus.running new_row)

Written-Timely_example : Timely 8 run_row
Written-Timely_example =
    Written-Timely 8 run_row
      (completed StepStatus.complete [] "" "" 3 (updated StepStatus.running (waited 3 (created 5))))

abbrev line : ℕ → String → LogLine
line n content = record { seq = n; stream = "stdout"; content = content }

insert_lines-again_example :
    (insert_lines (line 0 "a" ∷ line 1 "b" ∷ []) (insert_lines (line 0 "a" ∷ line 1 "b" ∷ []) [])
      ≡ insert_lines (line 0 "a" ∷ line 1 "b" ∷ []) [])
    × ((more : List LogLine) (n : ℕ)
        → has_seq n (insert_lines more []) ≡ (has_seq n [] || has_seq n more))
insert_lines-again_example = insert_lines-again (line 0 "a" ∷ line 1 "b" ∷ []) []

query_test :
    build_insert_logs_query (line 0 "a" ∷ line 1 "b" ∷ [])
    ≡ "INSERT INTO step_run_logs (step_run_id, seq, stream, content) VALUES ($1, $2, $3, $4), ($5, $6, $7, $8) ON CONFLICT (step_run_id, seq) DO NOTHING"
unfolding build_insert_logs_query
query_test = refl

abbrev dump : Artifact
dump = record { id = "1"; name = "dump.txt"; size_bytes = 900 }

abbrev notes : Artifact
notes = record { id = "2"; name = "report.md"; size_bytes = 10 }

primary_artifact-Best_example :
    (a : Artifact) × Among a (dump ∷ notes ∷ [])
    × (primary_artifact (λ s. s) (dump ∷ notes ∷ []) ≡ a.id)
    × ((b : Artifact)
        → Among b (dump ∷ notes ∷ [])
        → bears_one (λ s. s) keywords b ≡ true
        → bears_one (λ s. s) keywords a ≡ true)
primary_artifact-Best_example = primary_artifact-Best (λ s. s) dump (notes ∷ [])

abbrev tree : String
tree = "https://github.com/org/app/tree/main/plugins/fmt"

tree_parsed :
    parse_github_tree_url (λ s. s) tree ≡ done ("https://github.com/org/app.git", "plugins/fmt")
unfolding parse_github_tree_url
tree_parsed = refl

parse_github_tree_url-done_example :
    (path : String) × (branch : String) × (tree
      ≡ github_prefix +++ (path +++ ("/tree/" +++ (branch +++ ("/" +++ "plugins/fmt")))))
    × ("https://github.com/org/app.git" ≡ github_prefix +++ path +++ ".git")
    × (has_slash branch ≡ false)
parse_github_tree_url-done_example =
    parse_github_tree_url-done (λ s. s) tree "https://github.com/org/app.git" "plugins/fmt"
      tree_parsed

export_command-words_example :
    words_of (export_command "DOCS_TOKEN" "it's $(id)")
    ≡ some ("export" ∷ "DOCS_TOKEN=it's $(id)" ∷ [])
unfolding matches_credential
export_command-words_example = export_command-words "DOCS_TOKEN" "it's $(id)" refl

abbrev store : Store
store = record {
  base = λ s. s;
  join_path = λ d s. d +++ "/" +++ s;
  range_order = λ l. l;
  credential = none;
  marketplace = market "https://example.org/market" none;
}

abbrev preflight_input : RunPreflightInput
preflight_input = record {
  sandbox_id = "s";
  team_id = "t";
  profile = record { plugins = []; skills = []; mcps = [] };
  eval_plugin_urls = tree ∷ [];
}

run_preflight-Secure_example : Secure (tree ∷ []) (run_preflight store preflight_input host box).0
run_preflight-Secure_example = run_preflight-Secure store preflight_input host box
