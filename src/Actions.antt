-- ===== src/Actions.antt =====
-- internal/model/action_contract.go: the contracts of the action types, their registry, and the check
-- of a configuration against a contract.
pub mod Builtin
pub mod Laws
use fleetlift.Prelude.{
  String, Bool, true, false, not, ◌&&◌, ◌||◌, Option, none, some, List, [], ◌∷◌, ◌++◌, lookup,
  insert, keys, if◌then◌else◌, ◌==◌,
}
use fleetlift.Prelude.Text.{join, has_text}
use fleetlift.Prelude.Sort.{sort_by}
use fleetlift.Model.{Value, null, bool, int, float, str, arr, obj, Map, as_string}
use fleetlift.Validate.Errors.{
  Message, unregistered, unknown_config_key, missing_config_key, config_type,
}

pub record FieldContract : Type 0 where
  pub name : String
  pub type : String
  pub required : Bool
  pub description : String

pub record ActionContract : Type 0 where
  pub type : String
  pub description : String
  pub inputs : List FieldContract
  pub outputs : List FieldContract
  pub credentials : List String

-- `ActionRegistry`: the contracts by their type.
abbrev pub Registry : Type 0
Registry = List (String × ActionContract)

unfoldable pub register : ActionContract → Registry → Registry
unfolding insert
register c r = insert c.type c r

unfoldable pub get : String → Registry → Option ActionContract
unfolding lookup
get type r = lookup type r

-- `Types`: the names, sorted.
unfoldable pub types : Registry → List String
unfolding sort_by
types r = sort_by (λ t. t) (keys r)

abbrev pub zero_contract : ActionContract
zero_contract = record { type = ""; description = ""; inputs = []; outputs = []; credentials = [] }

-- `r.contracts[t]`
abbrev pub contract_of : Registry → String → ActionContract
contract_of r t = elim (get t r) [ none ↦ zero_contract | some c ↦ c ]

unfoldable pub contracts_of : Registry → List String → List ActionContract
unfolding get
contracts_of r [] = []
contracts_of r (t ∷ ts) = contract_of r t ∷ contracts_of r ts

-- `All`: the contracts, in the order of their names.
unfoldable pub all_contracts : Registry → List ActionContract
unfolding types contracts_of
all_contracts r = contracts_of r (types r)

abbrev pub field_names : List FieldContract → List String
field_names [] = []
field_names (f ∷ fs) = f.name ∷ field_names fs

-- `inputNames` and `OutputFieldNames`
unfoldable pub input_names : ActionContract → String
unfolding join
input_names c = join ", " (field_names c.inputs)

unfoldable pub output_field_names : ActionContract → String
unfolding join
output_field_names c = join ", " (field_names c.outputs)

abbrev pub has_field : List FieldContract → String → Bool
has_field [] name = false
has_field (f ∷ fs) name = f.name == name || has_field fs name

-- `HasOutputField`
abbrev pub has_output_field : ActionContract → String → Bool
has_output_field c name = has_field c.outputs name

-- `checkFieldType`
abbrev pub field_type_ok : String → Value → Bool
field_type_ok type val =
    if type == "string"
    then (elim val [ str s ↦ true | _ ↦ false ])
    else if type == "int"
    then (elim val [ int n ↦ true | float n whole ↦ whole | _ ↦ false ])
    else if type == "bool"
    then (elim val [ bool b ↦ true | _ ↦ false ])
    else if type == "array"
    then (elim val [ arr l ↦ true | _ ↦ false ])
    else true

-- A text with a template expression in it.
abbrev pub is_template : Value → Bool
is_template val = elim (as_string val) [ none ↦ false | some s ↦ has_text "{{" s ]

-- What the value of an input, if it is given, gives rise to.
abbrev pub input_errors : FieldContract → Option Value → List Message
input_errors f none = if f.required then missing_config_key f.name ∷ [] else []
input_errors f (some val) =
    if is_template val then [] else if field_type_ok f.type val then [] else config_type f.name ∷ []

unfoldable pub inputs_errors : List FieldContract → Map → List Message
unfolding has_text lookup
inputs_errors [] config = []
inputs_errors (f ∷ fs) config = input_errors f (lookup f.name config) ++ inputs_errors fs config

-- The keys that are no inputs, in their order.
unfoldable pub unknown_keys : ActionContract → List String → List Message
unfolding input_names
unknown_keys c [] = []
unknown_keys c (k ∷ ks) =
    if has_field c.inputs k
    then unknown_keys c ks
    else unknown_config_key k (input_names c) ∷ unknown_keys c ks

-- `ValidateConfig`
abbrev pub config_errors : ActionContract → Map → List Message
config_errors c config = unknown_keys c (keys config) ++ inputs_errors c.inputs config

abbrev pub contract_errors : String → Map → Option ActionContract → List Message
contract_errors type config none = unregistered type ∷ []
contract_errors type config (some c) = config_errors c config

unfoldable pub validate_config : String → Map → Registry → List Message
unfolding get unknown_keys inputs_errors
validate_config type config r = contract_errors type config (get type r)
