-- ===== src/Validate/Refs.antt =====
-- internal/workflow/validate.go: `validateTemplateRefs`, `validateJSONParamsInRepositories`,
-- `validateActionTypes` and `ValidateWorkflow`.
pub mod Known
pub mod Texts
pub mod Laws
pub mod Panics
use fleetlift.Prelude.{
  String, Bool, true, false, not, ◌&&◌, ◌||◌, Option, none, some, List, [], ◌∷◌, ◌++◌, contains,
  has, lookup, if◌then◌else◌, ◌==◌,
}
use fleetlift.Prelude.Text.{join}
use fleetlift.Model.{
  Value, as_string, Map, ParameterDef, StepDef, WorkflowDef, ActionDef, ExecutionDef,
}
use fleetlift.Actions.{Registry, ActionContract, get, types, validate_config, has_output_field}
use fleetlift.Actions.Builtin.{default_registry}
use fleetlift.Validate.Errors.{
  Message, ValidationError, invalid, unknown_action, unknown_parameter, unknown_step, not_upstream,
  not_in_schema, not_in_contract, needs_to_json,
}
use fleetlift.Validate.Parsed.{
  Parse, StepRef, Refs, extract_template_refs, unless_panic, json_params_without_to_json,
}
use fleetlift.Validate.Upstream.{upstream_of}
use fleetlift.Validate.Structure.{validate_structure}
use fleetlift.Validate.Fields.{
  validate_parameters, validate_agent_types, validate_sandbox_groups, validate_credential_names,
}

abbrev pub invalid_each : String → String → List Message → List ValidationError
invalid_each id field [] = []
invalid_each id field (m ∷ ms) = invalid id field m ∷ invalid_each id field ms

abbrev pub action_type_errors : StepDef → List ValidationError
action_type_errors s = elim s.action [
  | none ↦ []
  | some a ↦ elim (get a.type default_registry) [
    | none ↦
        invalid s.id "action.type" (unknown_action a.type (join ", " (types default_registry))) ∷ []
    | some c ↦ invalid_each s.id "action.config" (validate_config a.type a.config default_registry)
  ]
]

unfoldable pub validate_action_types : List StepDef → List ValidationError
unfolding get validate_config types default_registry join
validate_action_types [] = []
validate_action_types (s ∷ ss) = action_type_errors s ++ validate_action_types ss

-- `stepByID`: of two steps of one id the later counts.
abbrev pub later : Option StepDef → StepDef → Bool → Option StepDef
later none s same = if same then some s else none
later (some t) s same = some t

abbrev pub step_by_id : List StepDef → String → Option StepDef
step_by_id [] id = none
step_by_id (s ∷ ss) id = later (step_by_id ss id) s (s.id == id)

abbrev pub param_names : List ParameterDef → List String
param_names [] = []
param_names (p ∷ ps) = p.name ∷ param_names ps

-- The references to parameters of one template.
unfoldable pub param_ref_errors : List String → String → String → List String → List ValidationError
param_ref_errors declared id field [] = []
param_ref_errors declared id field (p ∷ ps) =
    if contains declared p
    then param_ref_errors declared id field ps
    else invalid id field (unknown_parameter p) ∷ param_ref_errors declared id field ps

-- An output key that the schema of the step's execution does not name.
abbrev pub schema_errors : String → String → StepRef → Option ExecutionDef → List ValidationError
schema_errors id field r none = []
schema_errors id field r (some e) = elim e.output [
  | none ↦ []
  | some schema ↦
      if has r.output_key schema
      then []
      else invalid id field (not_in_schema r.output_key r.step_id) ∷ []
]

-- An output key that the contract of the step's action does not declare.
abbrev pub contract_errors : String → String → StepRef → Option ActionDef → List ValidationError
contract_errors id field r none = []
contract_errors id field r (some a) = elim (get a.type default_registry) [
  | none ↦ []
  | some c ↦
      if has_output_field c r.output_key
      then []
      else invalid id field (not_in_contract r.step_id r.output_key a.type) ∷ []
]

abbrev pub output_errors : String → String → StepRef → StepDef → List ValidationError
output_errors id field r s =
    if r.output_key == ""
    then []
    else schema_errors id field r s.execution ++ contract_errors id field r s.action

-- A reference to a step in a prompt or a configuration.
abbrev pub step_ref_error :
    List String → String → String → StepRef → Option StepDef → List ValidationError
step_ref_error upstream id field r none = invalid id field (unknown_step r.step_id) ∷ []
step_ref_error upstream id field r (some s) =
    if contains upstream r.step_id
    then output_errors id field r s
    else invalid id field (not_upstream r.step_id) ∷ []

unfoldable pub step_ref_errors :
    List StepDef → List String → String → String → List StepRef → List ValidationError
unfolding get default_registry
step_ref_errors steps upstream id field [] = []
step_ref_errors steps upstream id field (r ∷ rs) =
    step_ref_error upstream id field r (step_by_id steps r.step_id)
    ++ step_ref_errors steps upstream id field rs

-- A condition may refer to any step.
unfoldable pub condition_ref_errors : List StepDef → String → List StepRef → List ValidationError
condition_ref_errors steps id [] = []
condition_ref_errors steps id (r ∷ rs) = elim (step_by_id steps r.step_id) [
  | none ↦ invalid id "condition" (unknown_step r.step_id) ∷ condition_ref_errors steps id rs
  | some s ↦ condition_ref_errors steps id rs
]

-- The texts of a configuration, in the order of its keys.
abbrev pub config_texts : Map → List (String × String)
config_texts [] = []
config_texts ((k, v) ∷ m) = elim (as_string v) [
  | none ↦ config_texts m
  | some s ↦ if s == "" then config_texts m else (s, "action.config") ∷ config_texts m
]

abbrev pub prompt_texts : Option ExecutionDef → List (String × String)
prompt_texts none = []
prompt_texts (some e) = if e.prompt == "" then [] else (e.prompt, "execution.prompt") ∷ []

abbrev pub action_texts : Option ActionDef → List (String × String)
action_texts none = []
action_texts (some a) = config_texts a.config

-- The texts of a step that are templates, each with the field that it is in.
abbrev pub templates_of : StepDef → List (String × String)
templates_of s = prompt_texts s.execution ++ action_texts s.action

module _ (parse : Parse) (def : WorkflowDef) where
  unfoldable pub text_errors : List String → String → List (String × String) → List ValidationError
  unfolding param_ref_errors step_ref_errors extract_template_refs
  text_errors upstream id [] = []
  text_errors upstream id ((text, field) ∷ texts) =
      let refs = extract_template_refs parse text false in
      param_ref_errors (param_names def.parameters) id field refs.params
      ++ (step_ref_errors def.steps upstream id field refs.steps ++ text_errors upstream id texts)

  unfoldable pub condition_errors : StepDef → List ValidationError
  unfolding param_ref_errors condition_ref_errors extract_template_refs
  condition_errors s =
      if s.condition == ""
      then []
      else (let refs = extract_template_refs parse s.condition true in
          param_ref_errors (param_names def.parameters) s.id "condition" refs.params
          ++ condition_ref_errors def.steps s.id refs.steps)

  -- `none`, out of fuel, does not occur.
  abbrev pub upstream_or_none : Option (List String) → List String
  upstream_or_none none = []
  upstream_or_none (some ups) = ups

  unfoldable pub step_template_errors : List StepDef → List ValidationError
  unfolding text_errors condition_errors upstream_of
  step_template_errors [] = []
  step_template_errors (s ∷ ss) =
      text_errors (upstream_or_none (upstream_of s.id def.steps)) s.id (templates_of s)
      ++ (condition_errors s ++ step_template_errors ss)

  abbrev pub validate_template_refs : List ValidationError
  validate_template_refs = step_template_errors def.steps

  -- The names of the json-typed parameters.
  abbrev pub json_names : List ParameterDef → List String
  json_names [] = []
  json_names (p ∷ ps) = if p.type == "json" then p.name ∷ json_names ps else json_names ps

  abbrev pub needs_to_json_each : String → List String → List ValidationError
  needs_to_json_each id [] = []
  needs_to_json_each id (n ∷ ns) =
      invalid id "repositories" (needs_to_json n) ∷ needs_to_json_each id ns

  -- A step whose repositories are a text that is not empty.
  abbrev pub repository_text : StepDef → Option String
  repository_text s = elim s.repositories [ none ↦ none | some v ↦ as_string v ]

  -- `none` is a panic, here and below.
  abbrev pub repository_errors : StepDef → Option (List ValidationError)
  repository_errors s = elim (repository_text s) [
    | none ↦ some []
    | some text ↦
        if text == ""
        then some []
        else unless_panic (json_params_without_to_json parse text (json_names def.parameters))
            (λ ns. some (needs_to_json_each s.id ns))
  ]

  unfoldable pub repositories_errors : List StepDef → Option (List ValidationError)
  unfolding json_params_without_to_json
  repositories_errors [] = some []
  repositories_errors (s ∷ ss) =
      unless_panic (repository_errors s)
        λ es. unless_panic (repositories_errors ss) (λ rest. some (es ++ rest))

  abbrev pub any_name : List String → Bool
  any_name [] = false
  any_name (n ∷ ns) = true

  abbrev pub validate_json_params_in_repositories : Option (List ValidationError)
  validate_json_params_in_repositories =
      if any_name (json_names def.parameters) then repositories_errors def.steps else some []

  -- `ValidateWorkflow`
  unfoldable pub validate_workflow :
      (List String → List String) → Map → Option (List ValidationError)
  unfolding step_template_errors repositories_errors validate_parameters validate_action_types
      validate_agent_types validate_sandbox_groups validate_credential_names
  validate_workflow range_order params = unless_panic validate_json_params_in_repositories λ json.
      some (
        validate_structure range_order def
        ++ (validate_parameters def.parameters params
            ++ (validate_action_types def.steps
                ++ (validate_agent_types def.steps
                    ++ (validate_sandbox_groups def.steps
                        ++ (validate_credential_names def.steps
                            ++ (validate_template_refs ++ json)))))))
