-- ===== src/Validate/Refs/Known.antt =====
-- internal/workflow/validate.go: the references to a step's outputs that pass the validation.
use fleetlift.Prelude.{
  String, ◌≡◌, sym, ap, ◌∙◌, ◌⊎◌, true, ◌==◌, if◌then◌else◌, has, arith, eq_iff, Option, none, some,
  List, [], ◌∷◌, contains, In, append-nil_iff, Bool-cases, inl, inr,
}
use fleetlift.Model.{Map, StepDef, ExecutionDef, ActionDef}
use fleetlift.Actions.{FieldContract, ActionContract, get, has_field, has_output_field}
use fleetlift.Actions.Builtin.{default_registry}
use fleetlift.Validate.Errors.{invalid, not_in_schema, not_in_contract}
use mathlib.Core.List.{Memᴰ}
use mathlib.Core.Option.{some_inj}
use fleetlift.Validate.Parsed.{StepRef}
use fleetlift.Validate.Refs.{
  later, schema_errors, contract_errors, step_by_id, output_errors, step_ref_error,
}

-- A schema, or the contract of an action, that is there has the key.
abbrev pub SchemaHas : String → Option Map → Type 0
SchemaHas k none = Unit
SchemaHas k (some schema) = has k schema ≡ true

abbrev pub field_names : List FieldContract → List String
field_names [] = []
field_names (f ∷ fs) = f.name ∷ field_names fs

abbrev pub ContractHas : String → Option ActionContract → Type 0
ContractHas k none = Unit
ContractHas k (some c) = In k (field_names c.outputs)

abbrev pub ExecutionGives : String → Option ExecutionDef → Type 0
ExecutionGives k none = Unit
ExecutionGives k (some e) = SchemaHas k e.output

abbrev pub ActionGives : String → Option ActionDef → Type 0
ActionGives k none = Unit
ActionGives k (some a) = ContractHas k (get a.type default_registry)

-- A reference to a step that exists and is upstream, and to no output or to one that the schema of
-- its execution and the contract of its action have, where it has these.
abbrev pub IsKnown : List StepDef → (String → Type 0) → StepRef → Type 0
IsKnown steps Up r =
    (s : StepDef) × Memᴰ s steps
    × (s.id ≡ r.step_id)
    × Up r.step_id
    × ((r.output_key ≡ "")
        ⊎ (ExecutionGives r.output_key s.execution × ActionGives r.output_key s.action))

has_field-names :
    (fs : List FieldContract) (k : String) → has_field fs k ≡ true → In k (field_names fs)
has_field-names [] k e = cc
has_field-names (f ∷ fs) k e =
    ground (arith, e, has_field-names fs k, eq_iff f.name k, eq_iff k f.name)

schema_errors-nil :
    (id field : String) (r : StepRef) (o : Option ExecutionDef)
    → schema_errors id field r o ≡ []
    → ExecutionGives r.output_key o
schema_errors-nil id field r none e = tt
schema_errors-nil id field r (some x) e = go x.output e
  where
    go :
        (o : Option Map)
        → elim o [
          | none ↦ []
          | some schema ↦
              if has r.output_key schema
              then []
              else invalid id field (not_in_schema r.output_key r.step_id) ∷ []
        ]
          ≡ []
        → SchemaHas r.output_key o
    go none q = tt
    go (some schema) q = elim (Bool-cases (has r.output_key schema)) [
      | inl there ↦ there
      | inr not_there ↦ cc (rw not_there at q)
    ]

contract_errors-nil :
    (id field : String) (r : StepRef) (o : Option ActionDef)
    → contract_errors id field r o ≡ []
    → ActionGives r.output_key o
contract_errors-nil id field r none e = tt
contract_errors-nil id field r (some a) e = go (get a.type default_registry) e
  where
    go :
        (o : Option ActionContract)
        → elim o [
          | none ↦ []
          | some c ↦
              if has_output_field c r.output_key
              then []
              else invalid id field (not_in_contract r.step_id r.output_key a.type) ∷ []
        ]
          ≡ []
        → ContractHas r.output_key o
    go none q = tt
    go (some c) q = elim (Bool-cases (has_output_field c r.output_key)) [
      | inl there ↦ has_field-names c.outputs r.output_key there
      | inr not_there ↦ cc (rw not_there at q)
    ]

output_errors-nil :
    (id field : String) (r : StepRef) (s : StepDef)
    → output_errors id field r s ≡ []
    → (r.output_key ≡ "")
      ⊎ (ExecutionGives r.output_key s.execution × ActionGives r.output_key s.action)
output_errors-nil id field r s e = elim (Bool-cases (r.output_key == "")) [
  | inl unset ↦ inl ((eq_iff r.output_key "").0 unset)
  | inr set ↦
      let parts =
        (append-nil_iff (schema_errors id field r s.execution)
            (contract_errors id field r s.action)).0
          (rw set at e) in
      inr (
        schema_errors-nil id field r s.execution parts.0,
        contract_errors-nil id field r s.action parts.1,
      )
]

later-found :
    (o : Option StepDef) (t : StepDef) (ss : List StepDef) (id : String) (s : StepDef)
    → ((u : StepDef) → o ≡ some u → Memᴰ u ss × (u.id ≡ id))
    → later o t (t.id == id) ≡ some s
    → Memᴰ s (t ∷ ss) × (s.id ≡ id)
later-found (some u) t ss id s all e = let (there, named) = all s e in (Memᴰ.tail there, named)
later-found none t ss id s all e = elim (Bool-cases (t.id == id)) [
  | inl same ↦
      let q : t ≡ s = some_inj.0 (rw same at e) in
      (Memᴰ.head (sym q), ap (λ x. x.id) (sym q) ∙ (eq_iff t.id id).0 same)
  | inr other ↦ cc (rw other at e)
]

pub step_by_id-found :
    (steps : List StepDef) (id : String) (s : StepDef)
    → step_by_id steps id ≡ some s
    → Memᴰ s steps × (s.id ≡ id)
step_by_id-found [] id s e = cc
step_by_id-found (t ∷ ss) id s e =
    later-found (step_by_id ss id) t ss id s (step_by_id-found ss id) e

pub step_ref_error-nil :
    (steps : List StepDef) (ups : List String) (id field : String) (r : StepRef)
    (o : Option StepDef)
    → step_by_id steps r.step_id ≡ o
    → step_ref_error ups id field r o ≡ []
    → IsKnown steps (λ v. In v ups) r
step_ref_error-nil steps ups id field r none found e = cc
step_ref_error-nil steps ups id field r (some s) found e =
    elim (Bool-cases (contains ups r.step_id)) [
      | inl up ↦
          let (there, named) = step_by_id-found steps r.step_id s found in
          (s, there, named, up, output_errors-nil id field r s (rw up at e))
      | inr off ↦ cc (rw off at e)
    ]
