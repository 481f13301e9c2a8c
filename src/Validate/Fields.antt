-- ===== src/Validate/Fields.antt =====
-- internal/workflow/validate.go: `validateParameters`, `validateAgentTypes`, `validateSandboxGroups` and
-- `validateCredentialNames`.
pub mod Laws
use fleetlift.Prelude.{
  String, ◌≡◌, refl, ◌↔◌, Bool, true, false, not, ◌&&◌, ◌||◌, Option, none, some, List, [], ◌∷◌,
  ◌++◌, contains, lookup, All, arith, eq_iff, Bool-cases, Option-cases, inl, inr, if◌then◌else◌,
  ◌==◌,
}
use fleetlift.Model.{
  Value, null, bool, int, float, str, arr, obj, Map, ParameterDef, StepDef, WorkflowDef,
}
use fleetlift.Validate.Errors.{
  ValidationError, invalid, missing_parameter, not_string, not_bool, not_integer, fractional,
  not_json, unknown_agent, image_in_group, malformed_credential, reserved_credential,
}
use fleetlift.Validate.Names.{matches_credential, valid_agent_types, reserved_cred_names}

-- `checkParamType`: a whole number of any Go type passes as an `int`.
unfoldable pub check_param_type : String → String → Value → List ValidationError
check_param_type name typ val =
    if typ == "string"
    then (elim val [ str s ↦ [] | _ ↦ invalid "" name (not_string name) ∷ [] ])
    else if typ == "bool"
    then (elim val [ bool b ↦ [] | _ ↦ invalid "" name (not_bool name) ∷ [] ])
    else if typ == "int"
    then (elim val [
      | int s ↦ []
      | float s whole ↦ if whole then [] else invalid "" name (fractional name) ∷ []
      | _ ↦ invalid "" name (not_integer name) ∷ []
    ])
    else if typ == "json"
    then (elim val [ obj m ↦ [] | arr l ↦ [] | _ ↦ invalid "" name (not_json name) ∷ [] ])
    else []

abbrev pub parameter_errors : Map → ParameterDef → List ValidationError
parameter_errors params p = elim (lookup p.name params) [
  | none ↦ if p.required then invalid "" p.name (missing_parameter p.name) ∷ [] else []
  | some val ↦ check_param_type p.name p.type val
]

-- Nil parameters are the empty map.
unfoldable pub validate_parameters : List ParameterDef → Map → List ValidationError
unfolding check_param_type lookup
validate_parameters [] params = []
validate_parameters (p ∷ ps) params = parameter_errors params p ++ validate_parameters ps params

abbrev pub agent_errors : StepDef → List ValidationError
agent_errors s = elim s.execution [
  | none ↦ []
  | some e ↦
      if contains valid_agent_types e.agent
      then []
      else invalid s.id "execution.agent" (unknown_agent e.agent) ∷ []
]

unfoldable pub validate_agent_types : List StepDef → List ValidationError
validate_agent_types [] = []
validate_agent_types (s ∷ ss) = agent_errors s ++ validate_agent_types ss

-- `step.Sandbox != nil && step.Sandbox.Image != ""`
abbrev pub has_image : StepDef → Bool
has_image s = elim s.sandbox [ none ↦ false | some b ↦ not (b.image == "") ]

abbrev pub group_errors : StepDef → List ValidationError
group_errors s =
    if not (s.sandbox_group == "") && has_image s
    then invalid s.id "sandbox.image" image_in_group ∷ []
    else []

unfoldable pub validate_sandbox_groups : List StepDef → List ValidationError
validate_sandbox_groups [] = []
validate_sandbox_groups (s ∷ ss) = group_errors s ++ validate_sandbox_groups ss

abbrev pub credential_error : String → String → List ValidationError
credential_error id cred =
    if not (matches_credential cred)
    then invalid id "credentials" (malformed_credential cred) ∷ []
    else if contains reserved_cred_names cred
    then invalid id "credentials" (reserved_credential cred) ∷ []
    else []

-- `checkNames`
unfoldable pub check_names : String → List String → List ValidationError
unfolding matches_credential
check_names id [] = []
check_names id (cred ∷ creds) = credential_error id cred ++ check_names id creds

abbrev pub name_errors : StepDef → List ValidationError
name_errors s =
    elim s.execution [ none ↦ [] | some e ↦ check_names s.id e.credentials ]
    ++ elim s.action [ none ↦ [] | some a ↦ check_names s.id a.credentials ]

unfoldable pub validate_credential_names : List StepDef → List ValidationError
unfolding check_names
validate_credential_names [] = []
validate_credential_names (s ∷ ss) = name_errors s ++ validate_credential_names ss
