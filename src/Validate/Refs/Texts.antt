-- ===== src/Validate/Refs/Texts.antt =====
-- internal/workflow/validate.go, `validateTemplateRefs`: the texts of a step that are templates, and the
-- references that any of them may make.
use fleetlift.Prelude.{
  String, ◌≡◌, refl, true, Option, none, some, List, [], ◌∷◌, ◌++◌, contains, All, eq_iff,
  Bool-cases, inl, inr, ◌==◌, if◌then◌else◌, arith,
}
use fleetlift.Model.{as_string, Map, ParameterDef, StepDef, ExecutionDef, ActionDef}
use fleetlift.Validate.Errors.{invalid, unknown_step}
use fleetlift.Validate.Parsed.{StepRef}
use fleetlift.Validate.Refs.{
  param_names, param_ref_errors, condition_ref_errors, step_by_id, prompt_texts, config_texts,
  action_texts, templates_of,
}
use fleetlift.Validate.Refs.Known.{step_by_id-found}
use mathlib.Core.List.{Memᴰ}

-- A parameter of that name is declared.
abbrev pub IsDeclared : List ParameterDef → String → Type 0
IsDeclared ps p = (d : ParameterDef) × Memᴰ d ps × (d.name ≡ p)

-- The step is one of the workflow.
abbrev pub IsThere : List StepDef → StepRef → Type 0
IsThere steps r = (s : StepDef) × Memᴰ s steps × (s.id ≡ r.step_id)

param_names-IsDeclared :
    (ps : List ParameterDef) (p : String) → contains (param_names ps) p ≡ true → IsDeclared ps p
param_names-IsDeclared [] p e = cc
param_names-IsDeclared (d ∷ ds) p e = elim (Bool-cases (d.name == p)) [
  | inl same ↦ (d, Memᴰ.head refl, (eq_iff d.name p).0 same)
  | inr other ↦
      let (d', there, named) =
        param_names-IsDeclared ds p (ground (arith, e, other, eq_iff d.name p)) in
      (d', Memᴰ.tail there, named)
]

pub param_ref_errors-nil :
    (declared : List ParameterDef) (id field : String) (ps : List String)
    → param_ref_errors (param_names declared) id field ps ≡ []
    → All (IsDeclared declared) ps
unfolding param_ref_errors
param_ref_errors-nil declared id field [] e = tt
param_ref_errors-nil declared id field (p ∷ ps) e =
    elim (Bool-cases (contains (param_names declared) p)) [
      | inl known ↦ (
        param_names-IsDeclared declared p known,
        param_ref_errors-nil declared id field ps (rw (known, param_ref_errors) at e),
      )
      | inr stray ↦ cc (rw (stray, param_ref_errors) at e)
    ]

pub condition_ref_errors-nil :
    (steps : List StepDef) (id : String) (rs : List StepRef)
    → condition_ref_errors steps id rs ≡ []
    → All (IsThere steps) rs
unfolding condition_ref_errors
condition_ref_errors-nil steps id [] e = tt
condition_ref_errors-nil steps id (r ∷ rs) e =
    go (step_by_id steps r.step_id) refl (condition_ref_errors-nil steps id rs) e
  where
    go :
        (o : Option StepDef)
        → step_by_id steps r.step_id ≡ o
        → (condition_ref_errors steps id rs ≡ [] → All (IsThere steps) rs)
        → elim o [
          | none ↦
              invalid id "condition" (unknown_step r.step_id) ∷ condition_ref_errors steps id rs
          | some s ↦ condition_ref_errors steps id rs
        ]
          ≡ []
        → All (IsThere steps) (r ∷ rs)
    go none found rest q = cc
    go (some s) found rest q =
        let (there, named) = step_by_id-found steps r.step_id s found in ((s, there, named), rest q)

-- `Q` holds of the prompt of an execution, and of each text of the configuration of an action.
module _ (Q : String → Type 0) where
  abbrev pub OfPrompt : Option ExecutionDef → Type 0
  OfPrompt none = Unit
  OfPrompt (some e) = Q e.prompt

  abbrev pub OfText : Option String → Type 0
  OfText none = Unit
  OfText (some s) = Q s

  abbrev pub OfConfig : Map → Type 0
  OfConfig [] = Unit
  OfConfig ((k, v) ∷ m) = OfText (as_string v) × OfConfig m

  abbrev pub OfAction : Option ActionDef → Type 0
  OfAction none = Unit
  OfAction (some a) = OfConfig a.config

  module _ (of_empty : Q "") where
    abbrev Each : List (String × String) → Type 0
    Each texts = All (λ t. Q t.0) texts

    Each-append : (xs ys : List (String × String)) → Each (xs ++ ys) → Each xs × Each ys
    Each-append [] ys h = (tt, h)
    Each-append (x ∷ xs) ys h = let (l, r) = Each-append xs ys h.1 in ((h.0, l), r)

    prompt-OfPrompt : (o : Option ExecutionDef) → Each (prompt_texts o) → OfPrompt o
    prompt-OfPrompt none h = tt
    prompt-OfPrompt (some e) h = elim (Bool-cases (e.prompt == "")) [
      | inl empty ↦ rw ((eq_iff e.prompt "").0 empty) of_empty
      | inr filled ↦ (rw filled at h).0
    ]

    config-OfConfig : (m : Map) → Each (config_texts m) → OfConfig m
    config-OfConfig [] h = tt
    config-OfConfig ((k, v) ∷ m) h = go (as_string v) (config-OfConfig m) h
      where
        go :
            (o : Option String)
            → (Each (config_texts m) → OfConfig m)
            → Each (elim o [
              | none ↦ config_texts m
              | some s ↦ if s == "" then config_texts m else (s, "action.config") ∷ config_texts m
            ])
            → OfText o × OfConfig m
        go none rest h' = (tt, rest h')
        go (some s) rest h' = elim (Bool-cases (s == "")) [
          | inl empty ↦ (rw ((eq_iff s "").0 empty) of_empty, rest (rw empty at h'))
          | inr filled ↦ let each = rw filled at h' in (each.0, rest each.1)
        ]

    action-OfAction : (o : Option ActionDef) → Each (action_texts o) → OfAction o
    action-OfAction none h = tt
    action-OfAction (some a) h = config-OfConfig a.config h

    pub templates_of-Each :
        (s : StepDef) → Each (templates_of s) → OfPrompt s.execution × OfAction s.action
    templates_of-Each s h =
        let (l, r) = Each-append (prompt_texts s.execution) (action_texts s.action) h in
        (prompt-OfPrompt s.execution l, action-OfAction s.action r)
