-- ===== src/Validate/Structure.antt =====
-- internal/workflow/validate.go, `validateStructure`: step ids, dependencies, cycles and kinds.
pub mod Laws
use fleetlift.Prelude.{
  String, Bool, true, false, not, ◌&&◌, ◌||◌, Option, none, some, List, [], ◌∷◌, ◌++◌, contains,
  if◌then◌else◌, ◌==◌,
}
use fleetlift.Model.{StepDef, WorkflowDef}
use fleetlift.Validate.Errors.{
  ValidationError, invalid, empty_id, malformed_id, duplicate_id, unknown_dependency, cycle,
  both_kinds, no_kind,
}
use fleetlift.Validate.Names.{matches_step_id}
use fleetlift.Validate.Kahn.{has_cycle}

-- A pointer that is set.
abbrev pub is_set {ℓ} : {A : Type ℓ} → Option A → Bool
is_set none = false
is_set (some a) = true

abbrev id_error : List String → String → List ValidationError
id_error seen id =
    if id == ""
    then invalid "" "id" empty_id ∷ []
    else (if matches_step_id id then [] else invalid id "id" (malformed_id id) ∷ [])
      ++ (if contains seen id then invalid id "id" (duplicate_id id) ∷ [] else [])

pub id_errors : List String → List StepDef → List ValidationError
id_errors seen [] = []
id_errors seen (s ∷ ss) =
    id_error seen s.id ++ id_errors (if s.id == "" then seen else s.id ∷ seen) ss

-- The keys of `validIDs`.
pub valid_ids : List StepDef → List String
valid_ids [] = []
valid_ids (s ∷ ss) =
    if not (s.id == "") && matches_step_id s.id then s.id ∷ valid_ids ss else valid_ids ss

pub unknown_deps : List String → String → List String → List ValidationError
unknown_deps valid id [] = []
unknown_deps valid id (dep ∷ deps) =
    if contains valid dep
    then unknown_deps valid id deps
    else invalid id "depends_on" (unknown_dependency dep) ∷ unknown_deps valid id deps

pub dependency_errors : List String → List StepDef → List ValidationError
dependency_errors valid [] = []
dependency_errors valid (s ∷ ss) =
    unknown_deps valid s.id s.depends_on ++ dependency_errors valid ss

-- `none`, out of fuel, does not occur.
abbrev pub cycle_errors : Option Bool → List ValidationError
cycle_errors (some true) = invalid "" "depends_on" cycle ∷ []
cycle_errors _ = []

abbrev kind_error : StepDef → List ValidationError
kind_error s =
    if is_set s.execution && is_set s.action
    then invalid s.id "type" both_kinds ∷ []
    else if not (is_set s.execution) && not (is_set s.action)
    then invalid s.id "type" no_kind ∷ []
    else []

pub kind_errors : List StepDef → List ValidationError
kind_errors [] = []
kind_errors (s ∷ ss) = kind_error s ++ kind_errors ss

pub validate_structure : (List String → List String) → WorkflowDef → List ValidationError
validate_structure range_order def =
    let valid = valid_ids def.steps in
    id_errors [] def.steps
    ++ (dependency_errors valid def.steps
        ++ (cycle_errors (has_cycle range_order valid def.steps) ++ kind_errors def.steps))
