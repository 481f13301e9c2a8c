-- ===== src/Validate/Parsed/Panics.antt =====
-- internal/workflow/validate.go, `jsonParamsWithoutToJSON`: for which templates it panics.
use fleetlift.Prelude.{
  String, ◌≡◌, refl, Bool, true, false, ◌&&◌, Option, none, some, List, [], arith,
}
use fleetlift.Validate.Parsed.{
  Node, Nodes, Else, Cmds, list_node, action_node, pipe_node, if_node, range_node, with_node,
  field_node, identifier_node, other_node, no_nodes, node, no_else, else_list, no_cmds, command,
  check_pipe, unless_panic, walk_json, walk_json_nodes, walk_json_else, walk_json_cmds, Parse,
  json_params_without_to_json,
}

-- No panic.
abbrev pub returns {ℓ} : {A : Type ℓ} → Option A → Bool
returns none = false
returns (some a) = true

-- Each if, range and with of the tree that the walker comes to has an else.
abbrev mutual
  pub has_elses : Node → Bool
  has_elses (list_node ns) = all_elses ns
  has_elses (action_node cs) = cmds_elses cs
  has_elses (if_node cs a b) = all_elses a && else_elses b
  has_elses (range_node cs a b) = all_elses a && else_elses b
  has_elses (with_node cs a b) = all_elses a && else_elses b
  has_elses (pipe_node cs) = true
  has_elses (field_node idents) = true
  has_elses (identifier_node i) = true
  has_elses other_node = true

  pub all_elses : Nodes → Bool
  all_elses no_nodes = true
  all_elses (node n ns) = has_elses n && all_elses ns

  pub else_elses : Else → Bool
  else_elses no_else = false
  else_elses (else_list ns) = all_elses ns

  pub cmds_elses : Cmds → Bool
  cmds_elses no_cmds = true
  cmds_elses (command args cs) = all_elses args && cmds_elses cs

pub returns-unless_panic :
    {A B : Type 0} (o : Option A) (f : A → Option B) (x y : Bool)
    → returns o ≡ x
    → ((a : A) → returns (f a) ≡ y)
    → returns (unless_panic o f) ≡ (x && y)
returns-unless_panic none f x y e all = ground (arith, e)
returns-unless_panic (some a) f x y e all = ground (arith, e, all a)

pub returns-mapped :
    {A B : Type 0} (o : Option A) (g : A → B)
    → returns (unless_panic o (λ a. some (g a))) ≡ returns o
returns-mapped none g = refl
returns-mapped (some a) g = refl

module _ (json_params : List String) where
  mutual
    unfolding walk_json

    pub returns-walk_json :
        (n : Node) (vs : List String) → returns (walk_json json_params n vs) ≡ has_elses n
    returns-walk_json (list_node ns) vs = returns-nodes ns vs
    returns-walk_json (action_node cs) vs = returns-cmds cs (check_pipe json_params cs vs)
    returns-walk_json (if_node cs a b) vs =
        returns-unless_panic _ _ (all_elses a) (else_elses b) (returns-nodes a vs) (returns-else b)
    returns-walk_json (range_node cs a b) vs =
        returns-unless_panic _ _ (all_elses a) (else_elses b) (returns-nodes a vs) (returns-else b)
    returns-walk_json (with_node cs a b) vs =
        returns-unless_panic _ _ (all_elses a) (else_elses b) (returns-nodes a vs) (returns-else b)
    returns-walk_json (pipe_node cs) vs = refl
    returns-walk_json (field_node idents) vs = refl
    returns-walk_json (identifier_node i) vs = refl
    returns-walk_json other_node vs = refl

    returns-nodes :
        (ns : Nodes) (vs : List String) → returns (walk_json_nodes json_params ns vs) ≡ all_elses ns
    returns-nodes no_nodes vs = refl
    returns-nodes (node n ns) vs =
        returns-unless_panic _ _ (has_elses n) (all_elses ns) (returns-walk_json n vs)
          (returns-nodes ns)

    returns-else :
        (b : Else) (vs : List String) → returns (walk_json_else json_params b vs) ≡ else_elses b
    returns-else no_else vs = refl
    returns-else (else_list ns) vs = returns-nodes ns vs

    returns-cmds :
        (cs : Cmds) (vs : List String) → returns (walk_json_cmds json_params cs vs) ≡ cmds_elses cs
    returns-cmds no_cmds vs = refl
    returns-cmds (command args cs) vs =
        returns-unless_panic _ _ (all_elses args) (cmds_elses cs) (returns-nodes args vs)
          (returns-cmds cs)

abbrev pub tree_elses : Option Node → Bool
tree_elses none = true
tree_elses (some root) = has_elses root

pub returns-json_params :
    (parse : Parse) (text : String) (json_params : List String)
    → returns (json_params_without_to_json parse text json_params) ≡ tree_elses (parse text)
unfolding json_params_without_to_json
returns-json_params parse text json_params = go (parse text)
  where
    go :
        (o : Option Node)
        → returns (elim o [ none ↦ some [] | some root ↦ walk_json json_params root [] ])
          ≡ tree_elses o
    go none = refl
    go (some root) = returns-walk_json json_params root []
