-- ===== src/Validate/Parsed/Laws.antt =====
-- internal/workflow/validate.go, `extractTemplateRefs`: the parameters that it finds.
use fleetlift.Prelude.{
  String, ◌≡◌, ◌≢◌, refl, ◌∙◌, Bool, true, false, ◌||◌, ◌&&◌, Option, none, some, List, [], ◌∷◌,
  contains, contains-append, arith, eq_iff, Bool-cases, inl, inr, ◌==◌,
}
use fleetlift.Prelude.Sort.Laws.{contains-sort_by}
use fleetlift.Validate.Parsed.{
  Node, Nodes, Cmds, list_node, action_node, pipe_node, if_node, range_node, with_node, field_node,
  identifier_node, other_node, no_nodes, node, Else, no_else, else_list, no_cmds, command, Parse,
  StepRef, Refs, add_field, as_param, as_step, walk, walk_nodes, walk_else, walk_cmds, no_refs,
  walked, extract_template_refs,
}

-- A field that names the parameter.
abbrev pub is_param : Option String → String → Bool
is_param none p = false
is_param (some q) p = q == p

-- Whether a field is `.key.p`, with any fields after it.
abbrev pub is_field_of : String → String → List String → Bool
is_field_of key p (a ∷ b ∷ rest) = a == key && b == p
is_field_of key p idents = false

is_param-as_param :
    (key p : String) (idents : List String)
    → is_param (as_param key idents) p ≡ is_field_of key p idents
is_param-as_param key p [] = refl
is_param-as_param key p (a ∷ []) = refl
is_param-as_param key p (a ∷ b ∷ rest) = elim (Bool-cases (a == key)) [
  | inl same ↦ rw same refl
  | inr other ↦ rw other refl
]

-- Whether a field of the tree names the parameter, in a pipe, a branch or an argument.
module _ (key p : String) where
  abbrev mutual
    pub mentions : Node → Bool
    mentions (list_node ns) = any_mentions ns
    mentions (action_node cs) = cmds_mention cs
    mentions (pipe_node cs) = cmds_mention cs
    mentions (if_node cs a b) = cmds_mention cs || any_mentions a || else_mentions b
    mentions (range_node cs a b) = cmds_mention cs || any_mentions a || else_mentions b
    mentions (with_node cs a b) = cmds_mention cs || any_mentions a || else_mentions b
    mentions (field_node idents) = is_field_of key p idents
    mentions (identifier_node i) = false
    mentions other_node = false

    pub any_mentions : Nodes → Bool
    any_mentions no_nodes = false
    any_mentions (node n ns) = mentions n || any_mentions ns

    pub else_mentions : Else → Bool
    else_mentions no_else = false
    else_mentions (else_list ns) = any_mentions ns

    pub cmds_mention : Cmds → Bool
    cmds_mention no_cmds = false
    cmds_mention (command args cs) = any_mentions args || cmds_mention cs

contains-add_field :
    (o : Option String) (r : Option StepRef) (refs : Refs) (p : String)
    → contains (add_field o r refs).params p ≡ (contains refs.params p || is_param o p)
contains-add_field none none refs p = ground arith
contains-add_field none (some r) refs p = ground arith
contains-add_field (some q) r refs p = elim (Bool-cases (contains refs.params q)) [
  | inl old ↦ rw old (ground (arith, old, eq_iff q p))
  | inr new ↦ rw new (ground (arith, contains-append refs.params (q ∷ []) p))
]

module _ (key steps_key p : String) where
  mutual
    unfolding walk

    pub contains-walk :
        (n : Node) (refs : Refs)
        → contains (walk key steps_key n refs).params p
          ≡ (contains refs.params p || mentions key p n)
    contains-walk (list_node ns) refs = contains-nodes ns refs
    contains-walk (action_node cs) refs = contains-cmds cs refs
    contains-walk (pipe_node cs) refs = contains-cmds cs refs
    contains-walk (if_node cs a b) refs = ground (
      arith,
      contains-cmds cs refs,
      contains-nodes a (walk_cmds key steps_key cs refs),
      contains-else b (walk_nodes key steps_key a (walk_cmds key steps_key cs refs)),
    )
    contains-walk (range_node cs a b) refs = ground (
      arith,
      contains-cmds cs refs,
      contains-nodes a (walk_cmds key steps_key cs refs),
      contains-else b (walk_nodes key steps_key a (walk_cmds key steps_key cs refs)),
    )
    contains-walk (with_node cs a b) refs = ground (
      arith,
      contains-cmds cs refs,
      contains-nodes a (walk_cmds key steps_key cs refs),
      contains-else b (walk_nodes key steps_key a (walk_cmds key steps_key cs refs)),
    )
    contains-walk (field_node idents) refs =
        rw (← is_param-as_param key p idents)
          (contains-add_field (as_param key idents) (as_step steps_key idents) refs p)
    contains-walk (identifier_node i) refs = ground arith
    contains-walk other_node refs = ground arith

    contains-nodes :
        (ns : Nodes) (refs : Refs)
        → contains (walk_nodes key steps_key ns refs).params p
          ≡ (contains refs.params p || any_mentions key p ns)
    contains-nodes no_nodes refs = ground arith
    contains-nodes (node n ns) refs =
        ground (arith, contains-walk n refs, contains-nodes ns (walk key steps_key n refs))

    contains-else :
        (b : Else) (refs : Refs)
        → contains (walk_else key steps_key b refs).params p
          ≡ (contains refs.params p || else_mentions key p b)
    contains-else no_else refs = ground arith
    contains-else (else_list ns) refs = contains-nodes ns refs

    contains-cmds :
        (cs : Cmds) (refs : Refs)
        → contains (walk_cmds key steps_key cs refs).params p
          ≡ (contains refs.params p || cmds_mention key p cs)
    contains-cmds no_cmds refs = ground arith
    contains-cmds (command args cs) refs =
        ground
          (arith, contains-nodes args refs, contains-cmds cs (walk_nodes key steps_key args refs))

-- The key of the parameters, in a condition and elsewhere.
abbrev pub param_key : Bool → String
param_key false = "Params"
param_key true = "params"

abbrev pub tree_mentions : String → String → Option Node → Bool
tree_mentions key p none = false
tree_mentions key p (some root) = mentions key p root

contains-walked :
    (condition_ctx : Bool) (o : Option Node) (p : String)
    → contains (walked condition_ctx o).params p ≡ tree_mentions (param_key condition_ctx) p o
contains-walked false none p = refl
contains-walked true none p = refl
contains-walked false (some root) p = contains-walk "Params" "Steps" p root no_refs
contains-walked true (some root) p = contains-walk "params" "steps" p root no_refs

-- The parameters that `extractTemplateRefs` finds in a text that is not empty are those that some field
-- of its tree names, under `.Params` or, in a condition, under `.params`; one that is not parsed names none.
pub contains-extract_template_refs :
    (parse : Parse) (text : String) (condition_ctx : Bool)
    → text ≢ ""
    → (p : String)
    → contains (extract_template_refs parse text condition_ctx).params p
      ≡ tree_mentions (param_key condition_ctx) p (parse text)
unfolding extract_template_refs
contains-extract_template_refs parse text condition_ctx some_text p =
    let filled : (text == "") ≡ false = ground (arith, eq_iff text "") in
    rw filled (
      contains-sort_by (walked condition_ctx (parse text)).params p
      ∙ contains-walked condition_ctx (parse text) p)
