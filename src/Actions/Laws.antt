-- ===== src/Actions/Laws.antt =====
-- internal/model/action_contract.go: what a registry holds and which configurations pass.
use fleetlift.Prelude.{
  String, ◌≡◌, refl, sym, subst, ◌↔◌, true, false, ◌||◌, Option, none, some, List, [], ◌∷◌, lookup,
  keys, append-nil_iff, All, arith, Bool-cases, inl, inr,
}
use fleetlift.Model.{Value, Map}
use fleetlift.Actions.{
  FieldContract, ActionContract, Registry, get, has_field, is_template, field_type_ok, input_errors,
  inputs_errors, unknown_keys, config_errors, contract_errors, validate_config,
}

-- What an input may be given: nothing if it is not required, a template, or a value of its type.
abbrev pub Takes : FieldContract → Option Value → Type 0
Takes f none = f.required ≡ false
Takes f (some val) = (is_template val || field_type_ok f.type val) ≡ true

input_errors_iff : (f : FieldContract) (o : Option Value) → (input_errors f o ≡ []) ↔ Takes f o
input_errors_iff f none = ground arith
input_errors_iff f (some val) = elim (Bool-cases (is_template val)) [
  | inl expr ↦ rw expr (λ e. refl, λ t. refl)
  | inr plain ↦ elim (Bool-cases (field_type_ok f.type val)) [
    | inl fits ↦ rw (plain, fits) (λ e. refl, λ t. refl)
    | inr off ↦ rw (plain, off) (λ e. cc, λ t. cc)
  ]
]

inputs_errors_iff :
    (fs : List FieldContract) (config : Map)
    → (inputs_errors fs config ≡ []) ↔ All (λ f. Takes f (lookup f.name config)) fs
unfolding inputs_errors
inputs_errors_iff [] config = (λ e. tt, λ t. refl)
inputs_errors_iff (f ∷ fs) config =
    let parts = append-nil_iff (input_errors f (lookup f.name config)) (inputs_errors fs config) in
    let here = input_errors_iff f (lookup f.name config) in
    (
      λ e. (here.0 (parts.0 e).0, (inputs_errors_iff fs config).0 (parts.0 e).1),
      λ t. parts.1 (here.1 t.0, (inputs_errors_iff fs config).1 t.1),
    )

unknown_keys_iff :
    (c : ActionContract) (ks : List String)
    → (unknown_keys c ks ≡ []) ↔ All (λ k. has_field c.inputs k ≡ true) ks
unfolding unknown_keys
unknown_keys_iff c [] = (λ e. tt, λ t. refl)
unknown_keys_iff c (k ∷ ks) = elim (Bool-cases (has_field c.inputs k)) [
  | inl known ↦
      rw known (λ e. (refl, (unknown_keys_iff c ks).0 e), λ t. (unknown_keys_iff c ks).1 t.1)
  | inr stray ↦ rw stray (λ e. cc, λ t. cc)
]

-- A contract under which a configuration passes: each key is an input, and each input is absent and
-- not required, a template, or a value of its type.
abbrev pub Admits : Map → ActionContract → Type 0
Admits config c =
    All (λ k. has_field c.inputs k ≡ true) (keys config)
    × All (λ f. Takes f (lookup f.name config)) c.inputs

config_errors_iff :
    (c : ActionContract) (config : Map) → (config_errors c config ≡ []) ↔ Admits config c
config_errors_iff c config =
    let parts = append-nil_iff (unknown_keys c (keys config)) (inputs_errors c.inputs config) in
    let known = unknown_keys_iff c (keys config) in
    let typed = inputs_errors_iff c.inputs config in
    (λ e. (known.0 (parts.0 e).0, typed.0 (parts.0 e).1), λ t. parts.1 (known.1 t.0, typed.1 t.1))

contract_errors_iff :
    (type : String) (config : Map) (o : Option ActionContract)
    → (contract_errors type config o ≡ []) ↔ ((c : ActionContract) × (o ≡ some c) × Admits config c)
contract_errors_iff type config none = (λ e. cc, λ t. cc (t.1))
contract_errors_iff type config (some c) = (
  λ e. (c, refl, (config_errors_iff c config).0 e),
  λ t. (config_errors_iff c config).1 (subst (Admits config) (sym (some_injective t.1)) t.2),
)
  where
    some_injective : {a b : ActionContract} → some a ≡ some b → a ≡ b
    some_injective e = cc

-- `ValidateConfig` finds nothing exactly for an action type that is registered with a contract that
-- admits the configuration.
pub validate_config_iff :
    (type : String) (config : Map) (r : Registry)
    → (validate_config type config r ≡ [])
      ↔ ((c : ActionContract) × (get type r ≡ some c) × Admits config c)
unfolding validate_config
validate_config_iff type config r = contract_errors_iff type config (get type r)
