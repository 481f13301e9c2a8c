-- ===== src/Activities/Structured/Laws.antt =====
-- internal/activity/execute.go: what an output that passes its schema is.
use fleetlift.Prelude.{
  String, ◌≡◌, ◌≢◌, refl, sym, ap, subst, ◌∙◌, Bool, true, false, Option, none, some, List, [], ◌∷◌,
  lookup, has, contains, arith, eq_iff, eq_refl, Option-cases, Bool-cases, inl, inr, ◌==◌,
}
use fleetlift.Prelude.Sort.{sort_by}
use fleetlift.Prelude.Sort.Laws.{by_name, contains-sort_by}
use fleetlift.Model.{Map, Value}
use fleetlift.Activities.Box.{
  Host, Verdict, valid, bad_schema, other_error, violates, Answer, done, fails,
}
use fleetlift.Activities.Structured.{
  filter_schema, parse_text, result_text, extract_schema_fields, build_json_schema, violations_of,
  unless_violated, checked_fields, enforce_output_schema, or_text, leaves,
}

-- The parsed value of a key of the schema, and of no other key.
abbrev pub only_if : Bool → Option Value → Option Value
only_if true v = v
only_if false v = none

only_none : (b : Bool) (v : Option Value) → v ≡ none → only_if b v ≡ only_if true v
only_none false v e = sym e
only_none true v e = refl

lookup-filter_schema :
    (parsed schema : Map) (k : String)
    → lookup k (filter_schema parsed schema) ≡ only_if (has k schema) (lookup k parsed)
unfolding lookup filter_schema
lookup-filter_schema parsed [] k = refl
lookup-filter_schema parsed ((j, t) ∷ schema) k = elim (Option-cases (lookup j parsed)) [
  | inl absent ↦ elim (Bool-cases (j == k)) [
    | inl same ↦
        rw (filter_schema, absent, same)
          (lookup-filter_schema parsed schema k
            ∙ only_none (has k schema) (lookup k parsed)
                (ap (λ n. lookup n parsed) (sym ((eq_iff j k).0 same)) ∙ absent))
    | inr other ↦ rw (filter_schema, absent, other) (lookup-filter_schema parsed schema k)
  ]
  | inr found ↦ elim (Bool-cases (j == k)) [
    | inl same ↦
        rw (filter_schema, found.1, lookup, same)
          ((sym found.1 ∙ ap (λ n. lookup n parsed) ((eq_iff j k).0 same)))
    | inr other ↦ rw (filter_schema, found.1, lookup, other) (lookup-filter_schema parsed schema k)
  ]
]

-- What the check has found nothing against.
abbrev pub Passed : Host → Map → Map → Type 0
Passed w out schema = violations_of (w.verdict (build_json_schema schema) out) ≡ []

done_injective : {a b : Map} → done a ≡ done b → a ≡ b
done_injective e = cc

checked_fields-done :
    (w : Host) (schema out : Map) (a : Answer Map)
    → checked_fields w schema a ≡ done out
    → (a ≡ done out) × Passed w out schema
checked_fields-done w schema out (fails text) e = cc
checked_fields-done w schema out (done m) e =
    through (violations_of (w.verdict (build_json_schema schema) m)) refl e
  where
    through :
        (vs : List String)
        → violations_of (w.verdict (build_json_schema schema) m) ≡ vs
        → unless_violated m vs ≡ done out
        → (done m ≡ done out) × Passed w out schema
    through [] none_found e' = (e', subst (λ x. Passed w x schema) (done_injective e') none_found)
    through (v ∷ vs) some_found e' = cc

or_text-some : (text : String) (vs : List String) → sort_by by_name (or_text text vs) ≢ []
or_text-some text [] e =
    ground (arith, eq_refl text, contains-sort_by (text ∷ []) text, ap (λ xs. contains xs text) e)
or_text-some text (v ∷ vs) e =
    ground (arith, eq_refl v, contains-sort_by (v ∷ vs) v, ap (λ xs. contains xs v) e)

violations_of-valid : (v : Verdict) → violations_of v ≡ [] → v ≡ valid
unfolding leaves
violations_of-valid valid e = refl
violations_of-valid (bad_schema text) e = cc
violations_of-valid (other_error text) e = cc
violations_of-valid (violates i text) e = absurd (or_text-some text (leaves i) e)

-- An output that passes its schema is what was parsed of the agent's text, cut to the fields of the
-- schema, and it is valid under the JSON schema that is built from that schema.
pub enforce_output_schema-done :
    (w : Host) (raw schema out : Map)
    → enforce_output_schema w raw schema ≡ done out
    → ((parsed : Map) × (parse_text w (result_text raw) ≡ some parsed)
        × ((k : String) → lookup k out ≡ only_if (has k schema) (lookup k parsed)))
      × (w.verdict (build_json_schema schema) out ≡ valid)
unfolding enforce_output_schema
enforce_output_schema-done w raw schema out e =
    let parsed = parse_text w (result_text raw) in
    let (extracted, passed) =
      checked_fields-done w schema out (extract_schema_fields w (result_text raw) schema) e in
    elim (Option-cases parsed) [
      | inl absent ↦ cc (rw (extract_schema_fields, absent) at extracted)
      | inr found ↦ (
        (
          found.0,
          found.1,
          λ k.
              ap (lookup k)
                (sym (done_injective (rw (extract_schema_fields, found.1) at extracted)))
              ∙ lookup-filter_schema found.0 schema k,
        ),
        violations_of-valid _ passed,
      )
    ]
