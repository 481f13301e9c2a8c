-- ===== src/Validate/Parsed.antt =====
-- internal/workflow/validate.go: `extractTemplateRefs`, `jsonParamsWithoutToJSON` and `checkPipe`, over
-- the trees of text/template/parse. The parser itself is a parameter: `none` where it fails or
-- gives no tree.
pub mod Laws
pub mod Panics
use fleetlift.Prelude.{
  String, Bool, true, false, not, ◌&&◌, ◌||◌, Option, none, some, List, [], ◌∷◌, ◌++◌, contains,
  if◌then◌else◌, ◌==◌,
}
use fleetlift.Prelude.Text.{◌+++◌}
use fleetlift.Prelude.Sort.{sort_by}

-- The kinds of node that the walkers ask for; any other is `other_node`. A `CommandNode` is the list
-- of its arguments, and an `ElseList` is nil, `no_else`, where the template has no else.
mutual
  pub data Node : Type 0 where
    list_node : Nodes → Node
    action_node pipe_node : Cmds → Node
    if_node range_node with_node : Cmds → Nodes → Else → Node
    field_node : List String → Node
    identifier_node : String → Node
    other_node : Node

  pub data Nodes : Type 0 where
    no_nodes : Nodes
    node : Node → Nodes → Nodes

  pub data Else : Type 0 where
    no_else : Else
    else_list : Nodes → Else

  pub data Cmds : Type 0 where
    no_cmds : Cmds
    command : Nodes → Cmds → Cmds

abbrev pub Parse : Type 0
Parse = String → Option Node

-- `StepRef`
pub record StepRef : Type 0 where
  pub step_id : String
  pub field : String
  pub output_key : String

abbrev pub composite_key : StepRef → String
composite_key r = r.step_id +++ "." +++ r.field +++ "." +++ r.output_key

-- `paramSet` and `stepRefs`; what was seen is what stands in them.
pub record Refs : Type 0 where
  pub params : List String
  pub steps : List StepRef

abbrev pub composite_keys : List StepRef → List String
composite_keys [] = []
composite_keys (r ∷ rs) = composite_key r ∷ composite_keys rs

abbrev pub add_param : String → Refs → Refs
add_param key refs =
    if contains refs.params key then refs else record refs { params = refs.params ++ key ∷ [] }

abbrev pub add_step : StepRef → Refs → Refs
add_step r refs =
    if contains (composite_keys refs.steps) (composite_key r)
    then refs
    else record refs { steps = refs.steps ++ r ∷ [] }

-- `idents[3]` of an output reference.
abbrev pub output_key_of : String → List String → String
output_key_of field [] = ""
output_key_of field (k ∷ ks) = if field == "Output" then k else ""

-- A field `.a.b.c...` as a parameter or as a step's field.
abbrev pub as_param : String → List String → Option String
as_param param_key (a ∷ b ∷ rest) = if a == param_key then some b else none
as_param param_key idents = none

abbrev pub as_step : String → List String → Option StepRef
as_step steps_key (a ∷ b ∷ c ∷ rest) =
    if a == steps_key
    then some (record { step_id = b; field = c; output_key = output_key_of c rest })
    else none
as_step steps_key idents = none

abbrev add_field : Option String → Option StepRef → Refs → Refs
add_field (some key) s refs = add_param key refs
add_field none (some r) refs = add_step r refs
add_field none none refs = refs

module _ (param_key steps_key : String) where
  -- `walkNode` of `extractTemplateRefs`
  unfoldable mutual
    pub walk : Node → Refs → Refs
    walk (list_node ns) refs = walk_nodes ns refs
    walk (action_node cs) refs = walk_cmds cs refs
    walk (pipe_node cs) refs = walk_cmds cs refs
    walk (if_node cs a b) refs = walk_else b (walk_nodes a (walk_cmds cs refs))
    walk (range_node cs a b) refs = walk_else b (walk_nodes a (walk_cmds cs refs))
    walk (with_node cs a b) refs = walk_else b (walk_nodes a (walk_cmds cs refs))
    walk (field_node idents) refs =
        add_field (as_param param_key idents) (as_step steps_key idents) refs
    walk (identifier_node i) refs = refs
    walk other_node refs = refs

    pub walk_nodes : Nodes → Refs → Refs
    walk_nodes no_nodes refs = refs
    walk_nodes (node n ns) refs = walk_nodes ns (walk n refs)

    pub walk_else : Else → Refs → Refs
    walk_else no_else refs = refs
    walk_else (else_list ns) refs = walk_nodes ns refs

    pub walk_cmds : Cmds → Refs → Refs
    walk_cmds no_cmds refs = refs
    walk_cmds (command args cs) refs = walk_cmds cs (walk_nodes args refs)

abbrev pub no_refs : Refs
no_refs = record { params = []; steps = [] }

abbrev pub walked : Bool → Option Node → Refs
walked condition_ctx none = no_refs
walked false (some root) = walk "Params" "Steps" root no_refs
walked true (some root) = walk "params" "steps" root no_refs

-- `extractTemplateRefs`; a template that is not parsed has no references.
unfoldable pub extract_template_refs : Parse → String → Bool → Refs
unfolding walk sort_by
extract_template_refs parse text condition_ctx =
    if text == ""
    then no_refs
    else (let refs = walked condition_ctx (parse text) in
        record refs { params = sort_by (λ p. p) refs.params })

-- What `checkPipe` finds in a pipe: the last json-typed parameter, and whether toJSON is called.
abbrev json_param : List String → List String → Option String
json_param json_params (a ∷ b ∷ rest) =
    if a == "Params" && contains json_params b then some b else none
json_param json_params idents = none

pub record PipeFacts : Type 0 where
  pub json_name : String
  pub has_to_json : Bool

abbrev pub note_arg : List String → PipeFacts → Node → PipeFacts
note_arg json_params facts (field_node idents) = elim (json_param json_params idents) [
  | none ↦ facts
  | some name ↦ record facts { json_name = name }
]
note_arg json_params facts (identifier_node i) =
    if i == "toJSON" then record facts { has_to_json = true } else facts
note_arg json_params facts (list_node ns) = facts
note_arg json_params facts (action_node cs) = facts
note_arg json_params facts (pipe_node cs) = facts
note_arg json_params facts (if_node cs a b) = facts
note_arg json_params facts (range_node cs a b) = facts
note_arg json_params facts (with_node cs a b) = facts
note_arg json_params facts other_node = facts

unfoldable pub note_args : List String → PipeFacts → Nodes → PipeFacts
note_args json_params facts no_nodes = facts
note_args json_params facts (node n ns) = note_args json_params (note_arg json_params facts n) ns

unfoldable pub note_cmds : List String → PipeFacts → Cmds → PipeFacts
unfolding note_args
note_cmds json_params facts no_cmds = facts
note_cmds json_params facts (command args cs) =
    note_cmds json_params (note_args json_params facts args) cs

-- `checkPipe`; `seen` is what stands in `violations`.
unfoldable pub check_pipe : List String → Cmds → List String → List String
unfolding note_cmds
check_pipe json_params cs violations =
    let facts = note_cmds json_params (record { json_name = ""; has_to_json = false }) cs in
    if not (facts.json_name == "")
      && not facts.has_to_json
      && not (contains violations facts.json_name)
    then violations ++ facts.json_name ∷ []
    else violations

-- `none` is a panic, from a nil pointer: nothing after it is done.
abbrev pub unless_panic {ℓ} : {A B : Type ℓ} → Option A → (A → Option B) → Option B
unless_panic none f = none
unless_panic (some a) f = f a

module _ (json_params : List String) where
  -- `walkNode` of `jsonParamsWithoutToJSON`, which reads the nodes of a nil `ElseList`.
  unfoldable mutual
    unfolding check_pipe

    pub walk_json : Node → List String → Option (List String)
    walk_json (list_node ns) vs = walk_json_nodes ns vs
    walk_json (action_node cs) vs = walk_json_cmds cs (check_pipe json_params cs vs)
    walk_json (if_node cs a b) vs = unless_panic (walk_json_nodes a vs) (walk_json_else b)
    walk_json (range_node cs a b) vs = unless_panic (walk_json_nodes a vs) (walk_json_else b)
    walk_json (with_node cs a b) vs = unless_panic (walk_json_nodes a vs) (walk_json_else b)
    walk_json (pipe_node cs) vs = some vs
    walk_json (field_node idents) vs = some vs
    walk_json (identifier_node i) vs = some vs
    walk_json other_node vs = some vs

    pub walk_json_nodes : Nodes → List String → Option (List String)
    walk_json_nodes no_nodes vs = some vs
    walk_json_nodes (node n ns) vs = unless_panic (walk_json n vs) (walk_json_nodes ns)

    pub walk_json_else : Else → List String → Option (List String)
    walk_json_else no_else vs = none
    walk_json_else (else_list ns) vs = walk_json_nodes ns vs

    pub walk_json_cmds : Cmds → List String → Option (List String)
    walk_json_cmds no_cmds vs = some vs
    walk_json_cmds (command args cs) vs = unless_panic (walk_json_nodes args vs) (walk_json_cmds cs)

unfoldable pub json_params_without_to_json : Parse → String → List String → Option (List String)
unfolding walk_json
json_params_without_to_json parse text json_params = elim (parse text) [
  | none ↦ some []
  | some root ↦ walk_json json_params root []
]
