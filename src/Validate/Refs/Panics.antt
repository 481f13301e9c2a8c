-- ===== src/Validate/Refs/Panics.antt =====
-- internal/workflow/validate.go: when `ValidateWorkflow` panics.
use fleetlift.Prelude.{
  String, ◌≡◌, refl, ◌∙◌, Bool, true, false, ◌&&◌, ◌||◌, not, Option, none, some, List, [], ◌∷◌,
  Bool-cases, inl, inr, ◌==◌, if◌then◌else◌,
}
use fleetlift.Model.{Value, as_string, Map, ParameterDef, StepDef, WorkflowDef}
use fleetlift.Validate.Parsed.{Parse, unless_panic, json_params_without_to_json}
use fleetlift.Validate.Parsed.Panics.{
  returns, tree_elses, returns-mapped, returns-unless_panic, returns-json_params,
}
use fleetlift.Validate.Refs.{
  json_names, any_name, needs_to_json_each, repository_errors, repositories_errors,
  validate_json_params_in_repositories, validate_workflow,
}

-- A json-typed parameter.
abbrev pub any_json : List ParameterDef → Bool
any_json [] = false
any_json (p ∷ ps) = p.type == "json" || any_json ps

-- The value is a text that is empty, or is not parsed, or has an else with each if, range and with.
abbrev pub text_elses : Parse → Option String → Bool
text_elses parse none = true
text_elses parse (some text) = text == "" || tree_elses (parse text)

abbrev pub value_elses : Parse → Option Value → Bool
value_elses parse none = true
value_elses parse (some v) = text_elses parse (as_string v)

abbrev pub steps_elses : Parse → List StepDef → Bool
steps_elses parse [] = true
steps_elses parse (s ∷ ss) = value_elses parse s.repositories && steps_elses parse ss

module _ (parse : Parse) (def : WorkflowDef) where
  any_json-names :
      (ps : List ParameterDef) → any_name parse def (json_names parse def ps) ≡ any_json ps
  any_json-names [] = refl
  any_json-names (p ∷ ps) = elim (Bool-cases (p.type == "json")) [
    | inl json ↦ rw json refl
    | inr other ↦ rw other (any_json-names ps)
  ]

  returns-repository :
      (s : StepDef) → returns (repository_errors parse def s) ≡ value_elses parse s.repositories
  returns-repository s = go s.repositories
    where
      text_go :
          (o : Option String)
          → returns (elim o [
            | none ↦ some []
            | some text ↦
                if text == ""
                then some []
                else unless_panic
                    (json_params_without_to_json parse text (json_names parse def def.parameters))
                    (λ ns. some (needs_to_json_each parse def s.id ns))
          ])
            ≡ text_elses parse o
      text_go none = refl
      text_go (some text) = elim (Bool-cases (text == "")) [
        | inl empty ↦ rw empty refl
        | inr filled ↦ rw filled (
            returns-mapped
              (json_params_without_to_json parse text (json_names parse def def.parameters))
              (needs_to_json_each parse def s.id)
            ∙ returns-json_params parse text (json_names parse def def.parameters))
      ]

      go :
          (o : Option Value)
          → returns (elim (elim o as (λ x. Option String) [ none ↦ none | some v ↦ as_string v ]) [
            | none ↦ some []
            | some text ↦
                if text == ""
                then some []
                else unless_panic
                    (json_params_without_to_json parse text (json_names parse def def.parameters))
                    (λ ns. some (needs_to_json_each parse def s.id ns))
          ])
            ≡ value_elses parse o
      go none = refl
      go (some v) = text_go (as_string v)

  returns-repositories :
      (ss : List StepDef) → returns (repositories_errors parse def ss) ≡ steps_elses parse ss
  unfolding repositories_errors
  returns-repositories [] = refl
  returns-repositories (s ∷ ss) =
      returns-unless_panic (repository_errors parse def s) _ (value_elses parse s.repositories)
        (steps_elses parse ss) (returns-repository s)
        (λ es. returns-mapped (repositories_errors parse def ss) _ ∙ returns-repositories ss)

  returns-json :
      returns (validate_json_params_in_repositories parse def)
      ≡ (not (any_json def.parameters) || steps_elses parse def.steps)
  returns-json = elim (Bool-cases (any_json def.parameters)) [
    | inl json ↦ rw (any_json-names def.parameters, json) (returns-repositories def.steps)
    | inr none_json ↦ rw (any_json-names def.parameters, none_json) refl
  ]

-- `ValidateWorkflow` panics exactly if a json-typed parameter is declared and the repositories of
-- some step are a template, that parses, with an if, range or with without an else where
-- `jsonParamsWithoutToJSON` looks for parameters: at the top, in the branches of these, or in the
-- arguments of an action.
pub returns-validate_workflow :
    (parse : Parse) (def : WorkflowDef) (range_order : List String → List String) (params : Map)
    → returns (validate_workflow parse def range_order params)
      ≡ (not (any_json def.parameters) || steps_elses parse def.steps)
unfolding validate_workflow
returns-validate_workflow parse def range_order params =
    returns-mapped (validate_json_params_in_repositories parse def) _ ∙ returns-json parse def
