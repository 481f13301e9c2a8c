-- ===== src/Activities/Structured.antt =====
-- internal/activity/execute.go: the structured output of an agent and its schema.
pub mod Laws
use fleetlift.Prelude.{
  ℕ, zero, suc, String, Bool, true, false, Option, none, some, List, [], ◌∷◌, ◌++◌, lookup, insert,
  keys, if◌then◌else◌, ◌==◌, contains,
}
use fleetlift.Prelude.Text.{◌+++◌, join, starts_with}
use fleetlift.Prelude.Sort.{sort_by}
use fleetlift.Model.{Value, Values, Fields, Map, as_string}
use fleetlift.Activities.Box.{
  Host, Invalid, invalid, Causes, no_causes, cause, Verdict, valid, bad_schema, other_error,
  violates, Answer, done, fails,
}

abbrev pub last {ℓ} : {A : Type ℓ} → List A → Option A
last [] = none
last (x ∷ xs) = elim (last xs) [ none ↦ some x | some y ↦ some y ]

-- What json.Unmarshal makes of the last match, if there is one and it is read.
abbrev pub parse_last : Host → List String → Option Map
parse_last w matches = elim (last matches) [ none ↦ none | some text ↦ w.unmarshal text ]

-- The fenced block first, then the bare object.
abbrev pub parse_text : Host → String → Option Map
parse_text w text = elim (parse_last w (w.fenced text)) [
  | some m ↦ some m
  | none ↦ parse_last w (w.bare text)
]

abbrev pub fields_map : Fields → Map
fields_map Fields.end = []
fields_map (Fields.field k v fs) = (k, v) ∷ fields_map fs

abbrev pub copy_key : String → Map → Map → Map
copy_key k raw out = elim (lookup k raw) [ none ↦ out | some v ↦ insert k v out ]

-- The map for a plain text.
abbrev pub normalized : String → Map → Map
normalized text raw =
    copy_key "exit_code" raw (copy_key "is_error" raw (("result", Value.str text) ∷ []))

abbrev pub structured_of : Host → Map → Option Value → Map
structured_of w raw (some (Value.obj fs)) = fields_map fs
structured_of w raw (some (Value.str text)) = elim (parse_text w text) [
  | some m ↦ m
  | none ↦ normalized text raw
]
structured_of w raw _ = raw

-- `extractStructuredOutput`
unfoldable pub extract_structured_output : Host → Map → Map
unfolding lookup insert
extract_structured_output w raw = structured_of w raw (lookup "result" raw)

-- `filterSchema`
unfoldable pub filter_schema : Map → Map → Map
unfolding lookup
filter_schema parsed [] = []
filter_schema parsed ((k, t) ∷ schema) = elim (lookup k parsed) [
  | none ↦ filter_schema parsed schema
  | some v ↦ (k, v) ∷ filter_schema parsed schema
]

-- `extractSchemaFields`
abbrev pub extract_schema_fields : Host → String → Map → Answer Map
extract_schema_fields w text schema = elim (parse_text w text) [
  | some m ↦ done (filter_schema m schema)
  | none ↦ fails "no JSON object found in agent output"
]

abbrev pub one_field : String → Value → Value
one_field k v = Value.obj (Fields.field k v Fields.end)

abbrev pub known_types : List String
known_types = "string" ∷ "array" ∷ "boolean" ∷ "number" ∷ "object" ∷ []

-- A text, or none for a value of another type.
abbrev pub text_or_none : Option String → String
text_or_none none = ""
text_or_none (some s) = s

abbrev pub type_of : Value → String
type_of v = text_or_none (as_string v)

abbrev pub property_of : String → Value
property_of type =
    if contains known_types type then one_field "type" (Value.str type) else Value.obj Fields.end

abbrev pub properties : Map → Fields
properties [] = Fields.end
properties ((k, t) ∷ schema) = Fields.field k (property_of (type_of t)) (properties schema)

abbrev pub texts : List String → Values
texts [] = Values.nil
texts (s ∷ ss) = Values.cons (Value.str s) (texts ss)

abbrev by_text : String → String
by_text s = s

-- `buildJSONSchema`
unfoldable pub build_json_schema : Map → Value
unfolding sort_by
build_json_schema [] = Value.obj Fields.end
build_json_schema (entry ∷ schema) = Value.obj (
    Fields.field "additionalProperties" (Value.bool false) (
      Fields.field "properties" (Value.obj (properties (entry ∷ schema))) (
        Fields.field "required" (Value.arr (texts (sort_by by_text (keys (entry ∷ schema)))))
          (Fields.field "type" (Value.str "object") Fields.end))))

-- strings.TrimPrefix(s, "/")
abbrev pub trim_slash : String → String
trim_slash String.[] = ""
trim_slash (String.◌∷◌ c s) = if starts_with "/" (String.◌∷◌ c s) then s else String.◌∷◌ c s

abbrev pub leaf_text : String → String → String
leaf_text location message =
    let path = trim_slash location in (if path == "" then "(root)" else path) +++ ": " +++ message

-- `visit` of `flattenSchemaValidationErrors`: the leaves, in order.
unfoldable mutual
  pub leaves : Invalid → List String
  leaves (invalid location message no_causes) = leaf_text location message ∷ []
  leaves (invalid location message (cause e es)) = leaves e ++ leaves_of es

  pub leaves_of : Causes → List String
  leaves_of no_causes = []
  leaves_of (cause e es) = leaves e ++ leaves_of es

abbrev pub or_text : String → List String → List String
or_text text [] = text ∷ []
or_text text (v ∷ vs) = v ∷ vs

-- `flattenSchemaValidationErrors`, sorted by its caller
abbrev pub violations_of : Verdict → List String
violations_of valid = []
violations_of (bad_schema text) = ("invalid output schema: " +++ text) ∷ []
violations_of (other_error text) = text ∷ []
violations_of (violates e text) = sort_by by_text (or_text text (leaves e))

-- `validateOutputSchema`
abbrev pub validate_output_schema : Host → Map → Map → List String
validate_output_schema w output schema = violations_of (w.verdict (build_json_schema schema) output)

abbrev pub unless_violated : Map → List String → Answer Map
unless_violated extracted [] = done extracted
unless_violated extracted (v ∷ vs) =
    fails ("output schema validation failed: " +++ join "; " (v ∷ vs))

abbrev pub checked_fields : Host → Map → Answer Map → Answer Map
checked_fields w schema (fails text) =
    fails ("agent output did not contain valid JSON matching schema: " +++ text)
checked_fields w schema (done extracted) =
    unless_violated extracted (validate_output_schema w extracted schema)

-- `resultText, _ := lastOutput["result"].(string)`
abbrev pub result_text : Map → String
result_text raw = elim (lookup "result" raw) [ none ↦ "" | some v ↦ type_of v ]

-- `enforceOutputSchema`
unfoldable pub enforce_output_schema : Host → Map → Map → Answer Map
unfolding lookup filter_schema build_json_schema leaves sort_by join starts_with
enforce_output_schema w raw schema =
    checked_fields w schema (extract_schema_fields w (result_text raw) schema)

-- `extractCostUSD`
abbrev pub float_text : Option Value → Option String
float_text (some (Value.float text whole)) = some text
float_text _ = none

unfoldable pub extract_cost_usd : Host → Map → ℕ
unfolding lookup
extract_cost_usd w raw = elim (float_text (lookup "total_cost_usd" raw)) [
  | some text ↦ w.cost text
  | none ↦ elim (float_text (lookup "cost_usd" raw)) [ some text ↦ w.cost text | none ↦ 0 ]
]
