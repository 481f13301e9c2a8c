-- ===== src/Validate/Fields/Laws.antt =====
-- internal/workflow/validate.go: what the checks of parameters and credential names let through.
use fleetlift.Prelude.{
  String, ◌≡◌, refl, ◌↔◌, true, false, Option, none, some, List, [], ◌∷◌, contains, append-nil_iff,
  All, arith,
}
use fleetlift.Model.{StepDef, ExecutionDef, ActionDef}
use fleetlift.Validate.Names.{matches_credential, reserved_cred_names}
use fleetlift.Validate.Fields.{
  credential_error, check_names, name_errors, validate_credential_names,
}

-- A name that matches the pattern and is not reserved.
abbrev pub IsUsable : String → Type 0
IsUsable cred = (matches_credential cred ≡ true) × (contains reserved_cred_names cred ≡ false)

credential_iff : (id cred : String) → (credential_error id cred ≡ []) ↔ IsUsable cred
credential_iff id cred = ground arith

check_names_iff :
    (id : String) (creds : List String) → (check_names id creds ≡ []) ↔ All IsUsable creds
unfolding check_names
check_names_iff id [] = (λ e. tt, λ u. refl)
check_names_iff id (cred ∷ creds) =
    let parts = append-nil_iff (credential_error id cred) (check_names id creds) in
    (
      λ e. ((credential_iff id cred).0 (parts.0 e).0, (check_names_iff id creds).0 (parts.0 e).1),
      λ u. parts.1 ((credential_iff id cred).1 u.0, (check_names_iff id creds).1 u.1),
    )

-- The names that the execution of a step asks for, and those of its action.
abbrev pub execution_names : StepDef → List String
execution_names s = elim s.execution [ none ↦ [] | some e ↦ e.credentials ]

abbrev pub action_names : StepDef → List String
action_names s = elim s.action [ none ↦ [] | some a ↦ a.credentials ]

abbrev pub UsesNames : StepDef → Type 0
UsesNames s = All IsUsable (execution_names s) × All IsUsable (action_names s)

execution_iff :
    (id : String) (o : Option ExecutionDef)
    → (elim o [ none ↦ [] | some e ↦ check_names id e.credentials ] ≡ [])
      ↔ All IsUsable (elim o [ none ↦ [] | some e ↦ e.credentials ])
execution_iff id none = (λ e. tt, λ u. refl)
execution_iff id (some e) = check_names_iff id e.credentials

action_iff :
    (id : String) (o : Option ActionDef)
    → (elim o [ none ↦ [] | some a ↦ check_names id a.credentials ] ≡ [])
      ↔ All IsUsable (elim o [ none ↦ [] | some a ↦ a.credentials ])
action_iff id none = (λ e. tt, λ u. refl)
action_iff id (some a) = check_names_iff id a.credentials

name_errors_iff : (s : StepDef) → (name_errors s ≡ []) ↔ UsesNames s
name_errors_iff s =
    let parts =
      append-nil_iff (elim s.execution [ none ↦ [] | some e ↦ check_names s.id e.credentials ])
        (elim s.action [ none ↦ [] | some a ↦ check_names s.id a.credentials ]) in
    (
      λ e. (
        (execution_iff s.id s.execution).0 (parts.0 e).0,
        (action_iff s.id s.action).0 (parts.0 e).1,
      ),
      λ u. parts.1 ((execution_iff s.id s.execution).1 u.0, (action_iff s.id s.action).1 u.1),
    )

-- `validateCredentialNames` finds nothing exactly if each name that a step's execution or action asks
-- for matches the pattern and is not reserved.
pub validate_credential_names_iff :
    (steps : List StepDef) → (validate_credential_names steps ≡ []) ↔ All UsesNames steps
unfolding validate_credential_names
validate_credential_names_iff [] = (λ e. tt, λ u. refl)
validate_credential_names_iff (s ∷ ss) =
    let parts = append-nil_iff (name_errors s) (validate_credential_names ss) in
    (
      λ e.
          ((name_errors_iff s).0 (parts.0 e).0, (validate_credential_names_iff ss).0 (parts.0 e).1),
      λ u. parts.1 ((name_errors_iff s).1 u.0, (validate_credential_names_iff ss).1 u.1),
    )
