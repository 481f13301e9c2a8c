-- ===== src/Validate/Refs/Laws.antt =====
-- internal/workflow/validate.go: what a workflow that passes the validation promises of its templates.
use fleetlift.Prelude.{
  String, Bool, if◌then◌else◌, ◌≡◌, refl, true, false, eq_iff, ◌==◌, Option, none, some, List, [],
  ◌∷◌, ◌++◌, In, All, All-map, append-nil_iff, Bool-cases, inl, inr,
}
use fleetlift.Model.{Map, StepDef, WorkflowDef}
use fleetlift.Validate.Errors.{ValidationError}
use fleetlift.Validate.Refs.Known.{IsKnown, step_ref_error-nil}
use fleetlift.Validate.Refs.Texts.{
  IsDeclared, IsThere, param_ref_errors-nil, condition_ref_errors-nil, OfPrompt, OfAction,
  templates_of-Each,
}
use mathlib.Core.Option.{some_inj}
use fleetlift.Validate.Parsed.{Parse, StepRef, extract_template_refs, unless_panic}
use fleetlift.Validate.Upstream.{depends_map, upstream_of}
use fleetlift.Validate.Upstream.Search.{Reaches}
use fleetlift.Validate.Upstream.Laws.{upstream_of_lem}
use fleetlift.Validate.Kahn.Rank.{IsOrder}
use fleetlift.Validate.Structure.{validate_structure}
use fleetlift.Validate.Structure.Laws.{IsWellFormed, validate_structure_iff}
use fleetlift.Validate.Fields.{
  validate_parameters, validate_agent_types, validate_sandbox_groups, validate_credential_names,
}
use fleetlift.Validate.Fields.Laws.{UsesNames, validate_credential_names_iff}
use fleetlift.Validate.Refs.{
  condition_ref_errors, step_by_id, param_names, param_ref_errors, step_ref_error, step_ref_errors,
  templates_of, text_errors, condition_errors, upstream_or_none, step_template_errors,
  validate_template_refs, validate_workflow, validate_action_types,
  validate_json_params_in_repositories,
}

step_ref_errors-nil :
    (steps : List StepDef) (ups : List String) (id field : String) (rs : List StepRef)
    → step_ref_errors steps ups id field rs ≡ []
    → All (IsKnown steps (λ v. In v ups)) rs
unfolding step_ref_errors
step_ref_errors-nil steps ups id field [] e = tt
step_ref_errors-nil steps ups id field (r ∷ rs) e =
    let found = step_by_id steps r.step_id in
    let parts =
      (append-nil_iff (step_ref_error ups id field r found)
          (step_ref_errors steps ups id field rs)).0
        e in
    (
      step_ref_error-nil steps ups id field r found refl parts.0,
      step_ref_errors-nil steps ups id field rs parts.1,
    )

nil_unless :
    (b : Bool) {es : List ValidationError} → (if b then [] else es) ≡ [] → b ≡ false → es ≡ []
nil_unless true e off = cc
nil_unless false e off = e

module _ (parse : Parse) (def : WorkflowDef) where
  -- The references of a text of a step: the parameters are declared, and the steps are known.
  abbrev pub IsResolved : (String → Type 0) → String → Type 0
  IsResolved Up text =
      All (IsDeclared def.parameters) (extract_template_refs parse text false).params
      × All (IsKnown def.steps Up) (extract_template_refs parse text false).steps

  -- The same of a condition, which may refer to any step.
  abbrev pub IsMet : String → Type 0
  IsMet text =
      All (IsDeclared def.parameters) (extract_template_refs parse text true).params
      × All (IsThere def.steps) (extract_template_refs parse text true).steps

  text_errors-nil :
      (ups : List String) (id : String) (texts : List (String × String))
      → text_errors parse def ups id texts ≡ []
      → All (λ t. IsResolved (λ v. In v ups) t.0) texts
  unfolding text_errors
  text_errors-nil ups id [] e = tt
  text_errors-nil ups id ((text, field) ∷ texts) e =
      let refs = extract_template_refs parse text false in
      let parts =
        (append-nil_iff (param_ref_errors (param_names def.parameters) id field refs.params) (
            step_ref_errors def.steps ups id field refs.steps
            ++ text_errors parse def ups id texts)).0
          e in
      let more =
        (append-nil_iff (step_ref_errors def.steps ups id field refs.steps)
            (text_errors parse def ups id texts)).0
          parts.1 in
      (
        (
          param_ref_errors-nil def.parameters id field refs.params parts.0,
          step_ref_errors-nil def.steps ups id field refs.steps more.0,
        ),
        text_errors-nil ups id texts more.1,
      )

  -- What a step depends on, directly or by way of others.
  abbrev pub UpOf : String → String → Type 0
  UpOf id = Reaches (depends_map def.steps []) id

  IsResolved-up :
      (id : String) (texts : List (String × String))
      → text_errors parse def (upstream_or_none parse def (upstream_of id def.steps)) id texts ≡ []
      → All (λ t. IsResolved (UpOf id) t.0) texts
  IsResolved-up id texts e =
      let (ups, found, exact) = upstream_of_lem id def.steps in
      let known = text_errors-nil ups id texts (rw found at e) in
      All-map texts
        (λ t h. (
          h.0,
          All-map (extract_template_refs parse t.0 false).steps
              (λ r k. (k.0, k.1, k.2, (exact r.step_id).0 k.3, k.4)) h.1,
        ))
        known

  IsMet-empty : IsMet ""
  unfolding extract_template_refs
  IsMet-empty = (tt, tt)

  condition_errors-nil : (s : StepDef) → condition_errors parse def s ≡ [] → IsMet s.condition
  unfolding condition_errors
  condition_errors-nil s e = elim (Bool-cases (s.condition == "")) [
    | inl empty ↦ rw ((eq_iff s.condition "").0 empty) IsMet-empty
    | inr filled ↦
        let refs = extract_template_refs parse s.condition true in
        let parts =
          (append-nil_iff
              (param_ref_errors (param_names def.parameters) s.id "condition" refs.params)
              (condition_ref_errors def.steps s.id refs.steps)).0
            (nil_unless (s.condition == "") e filled) in
        (
          param_ref_errors-nil def.parameters s.id "condition" refs.params parts.0,
          condition_ref_errors-nil def.steps s.id refs.steps parts.1,
        )
  ]

  -- The references of the templates of a step.
  abbrev pub IsResolvedStep : StepDef → Type 0
  IsResolvedStep s =
      OfPrompt (IsResolved (UpOf s.id)) s.execution
      × OfAction (IsResolved (UpOf s.id)) s.action
      × IsMet s.condition

  of_empty : (Up : String → Type 0) → IsResolved Up ""
  unfolding extract_template_refs
  of_empty Up = (tt, tt)

  step_template_errors-nil :
      (ss : List StepDef) → step_template_errors parse def ss ≡ [] → All IsResolvedStep ss
  unfolding step_template_errors
  step_template_errors-nil [] e = tt
  step_template_errors-nil (s ∷ ss) e =
      let parts =
        (append-nil_iff
            (text_errors parse def (upstream_or_none parse def (upstream_of s.id def.steps)) s.id
              (templates_of s))
            (condition_errors parse def s ++ step_template_errors parse def ss)).0
          e in
      let more =
        (append-nil_iff (condition_errors parse def s) (step_template_errors parse def ss)).0
          parts.1 in
      let (prompt, action) =
        templates_of-Each (IsResolved (UpOf s.id)) (of_empty (UpOf s.id)) s
          (IsResolved-up s.id (templates_of s) parts.0) in
      ((prompt, action, condition_errors-nil s more.0), step_template_errors-nil ss more.1)

nothing_found :
    (o : Option (List ValidationError)) (es : List ValidationError → List ValidationError)
    → unless_panic o (λ json. some (es json)) ≡ some []
    → (json : List ValidationError) × (es json ≡ [])
nothing_found none es e = cc
nothing_found (some json) es e = (json, some_inj.0 e)

-- If `ValidateWorkflow` returns and finds nothing, in whatever order Go goes through its maps, the
-- steps are well formed, the names of their
-- credentials match the pattern and are not reserved, and each reference that it reads out of a
-- template is to a declared parameter or to a step of the workflow. A step to which the prompt or
-- a text of the configuration refers is one that the referring step depends on, directly or by way
-- of others; and if the reference is to an output of that step, the output's key is in the schema of
-- the step's execution, where there is one, and among the outputs of the contract of its action,
-- where there is one.
pub validate_workflow-nil :
    (parse : Parse) (def : WorkflowDef) (range_order : List String → List String)
    → IsOrder range_order
    → (params : Map) → validate_workflow parse def range_order params ≡ some []
    → IsWellFormed def.steps × All UsesNames def.steps × All (IsResolvedStep parse def) def.steps
unfolding validate_workflow
validate_workflow-nil parse def range_order reorders params e =
    let ps = validate_parameters def.parameters params in
    let ts = validate_action_types def.steps in
    let gs = validate_agent_types def.steps in
    let ss = validate_sandbox_groups def.steps in
    let cs = validate_credential_names def.steps in
    let refs = validate_template_refs parse def in
    let (json, e0) =
      nothing_found (validate_json_params_in_repositories parse def)
        (λ json.
          validate_structure range_order def
          ++ (ps ++ (ts ++ (gs ++ (ss ++ (cs ++ (refs ++ json)))))))
        e in
    let structure =
      (append-nil_iff (validate_structure range_order def)
          (ps ++ (ts ++ (gs ++ (ss ++ (cs ++ (refs ++ json))))))).0
        e0 in
    let e1 = ((append-nil_iff ps (ts ++ (gs ++ (ss ++ (cs ++ (refs ++ json)))))).0 structure.1).1 in
    let e2 = ((append-nil_iff ts (gs ++ (ss ++ (cs ++ (refs ++ json))))).0 e1).1 in
    let e3 = ((append-nil_iff gs (ss ++ (cs ++ (refs ++ json)))).0 e2).1 in
    let e4 = ((append-nil_iff ss (cs ++ (refs ++ json))).0 e3).1 in
    let e5 = (append-nil_iff cs (refs ++ json)).0 e4 in
    (
      (validate_structure_iff range_order reorders def).0 structure.0,
      (validate_credential_names_iff def.steps).0 e5.0,
      step_template_errors-nil parse def def.steps ((append-nil_iff refs json).0 e5.1).0,
    )
