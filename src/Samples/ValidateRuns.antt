-- ===== src/Samples/ValidateRuns.antt =====
-- Runs of the validation and of the action registry on small inputs.
use fleetlift.Prelude.{
  String, ◌≡◌, refl, ◌↔◌, false, none, some, List, [], ◌∷◌, contains, In, All, lookup, insert,
  if◌then◌else◌, ◌==◌,
}
use fleetlift.Prelude.Sort.{sort_by, place}
use fleetlift.Model.{Value, Map, ParameterDef, WorkflowDef}
use fleetlift.Actions.{ActionContract, get, register, inputs_errors, unknown_keys, validate_config}
use fleetlift.Actions.Builtin.{default_registry}
use fleetlift.Actions.Laws.{Admits, validate_config_iff}
use fleetlift.Validate.Names.{matches_step_id}
use fleetlift.Validate.Upstream.{upstream_of, depends_map, search_up, visit}
use fleetlift.Validate.Upstream.Search.{Reaches}
use fleetlift.Validate.Upstream.Laws.{upstream_of_lem}
use fleetlift.Validate.Parsed.{
  Parse, list_node, if_node, no_else, field_node, pipe_node, command, no_cmds, node, no_nodes,
  extract_template_refs, walk,
}
use fleetlift.Validate.Parsed.Laws.{tree_mentions, param_key, contains-extract_template_refs}
use fleetlift.Validate.Structure.Laws.{IsWellFormed, validate_structure_iff}
use fleetlift.Validate.Fields.{
  validate_parameters, validate_agent_types, validate_sandbox_groups, validate_credential_names,
}
use fleetlift.Validate.Names.{matches_credential}
use fleetlift.Prelude.{arith}
use fleetlift.Samples.{depth}
use fleetlift.Validate.Fields.Laws.{UsesNames}
use fleetlift.Validate.Refs.{
  validate_workflow, step_template_errors, text_errors, condition_errors, repositories_errors,
  param_ref_errors, step_ref_errors, validate_action_types,
}
use fleetlift.Validate.Parsed.Panics.{returns}
use fleetlift.Validate.Refs.Panics.{returns-validate_workflow}
use fleetlift.Validate.Refs.Laws.{IsResolvedStep, validate_workflow-nil}
use fleetlift.Samples.{fix, tell, two_steps, execution}

abbrev news : Map
news = ("channel", Value.str "#dev") ∷ ("message", Value.str "done") ∷ []

validate_config_iff_example :
    (validate_config "slack_notify" news default_registry ≡ [])
    ↔ ((c : ActionContract) × (get "slack_notify" default_registry ≡ some c) × Admits news c)
validate_config_iff_example = validate_config_iff "slack_notify" news default_registry

upstream_of_lem_example :
    (ups : List String) × (upstream_of "tell" two_steps.steps ≡ some ups)
    × ((v : String) → In v ups ↔ Reaches (depends_map two_steps.steps []) "tell" v)
upstream_of_lem_example = upstream_of_lem "tell" two_steps.steps

-- The trees of two texts.
abbrev parse : Parse
parse text =
    if text == "{{.Params.issue}}"
    then some (pipe_node (command (node (field_node ("Params" ∷ "issue" ∷ [])) no_nodes) no_cmds))
    else if text == "{{.Steps.fix.status}}"
    then some (field_node ("Steps" ∷ "fix" ∷ "status" ∷ []))
    else none

contains-extract_template_refs_example :
    contains (extract_template_refs parse "{{.Params.issue}}" false).params "issue"
    ≡ tree_mentions (param_key false) "issue" (parse "{{.Params.issue}}")
contains-extract_template_refs_example =
    contains-extract_template_refs parse "{{.Params.issue}}" false (λ e. cc) "issue"

abbrev issue : ParameterDef
issue = record {
  name = "issue";
  type = "string";
  required = false;
  default = none;
  description = "";
}

-- A step whose prompt names a parameter, and an action that names the step.
abbrev passing : WorkflowDef
passing = record two_steps {
  parameters = issue ∷ [];
  steps =
      record fix { execution = some (record execution { prompt = "{{.Params.issue}}" }) }
      ∷ record tell {
        action = some (record {
          type = "slack_notify";
          config =
              ("channel", Value.str "#dev") ∷ ("message", Value.str "{{.Steps.fix.status}}") ∷ [];
          credentials = "SLACK" ∷ [];
        });
      }
      ∷ [];
}

passing-IsWellFormed : IsWellFormed passing.steps
unfolding matches_step_id
passing-IsWellFormed = record {
  named = (refl, (refl, tt));
  distinct = (refl, (refl, tt));
  known = (tt, ((refl, tt), tt));
  rank = depth;
  ranked = (tt, ((omega arith, tt), tt));
  kinds = (refl, (refl, tt));
}

passing_valid : validate_workflow parse passing (λ l. l) [] ≡ some []
unfolding validate_workflow step_template_errors text_errors extract_template_refs walk sort_by
    place param_ref_errors step_ref_errors upstream_of depends_map search_up visit lookup insert
    validate_action_types validate_config get default_registry register inputs_errors unknown_keys
    validate_parameters validate_agent_types validate_sandbox_groups validate_credential_names
    matches_credential condition_errors repositories_errors
passing_valid =
    rw ((validate_structure_iff (λ l. l) (λ l v. refl) passing).1 passing-IsWellFormed) refl

validate_workflow-nil_example :
    IsWellFormed passing.steps
    × All UsesNames passing.steps
    × All (IsResolvedStep parse passing) passing.steps
validate_workflow-nil_example =
    validate_workflow-nil parse passing (λ l. l) (λ l v. refl) [] passing_valid

-- A repositories template `{{if .Params.all}}...{{end}}`, without an else.
abbrev parse_branch : Parse
parse_branch text = some (list_node (node (if_node no_cmds no_nodes no_else) no_nodes))

abbrev branching : WorkflowDef
branching = record two_steps {
  parameters = record issue { type = "json" } ∷ [];
  steps = record fix { repositories = some (Value.str "{{if .Params.all}}[]{{end}}") } ∷ [];
}

returns-validate_workflow_example :
    returns (validate_workflow parse_branch branching (λ l. l) []) ≡ false
returns-validate_workflow_example = returns-validate_workflow parse_branch branching (λ l. l) []
