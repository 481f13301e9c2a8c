-- ===== src/Validate/Kahn.antt =====
-- internal/workflow/validate.go, `validateStructure`: the cycle detection by Kahn's algorithm. The
-- maps `inDegree` and `adj` are association lists. The decrement is made at 1 or more, so its
-- subtraction is exact. The order in which Go ranges over `inDegree` is the parameter `range_order`.
pub mod Build
pub mod Loop
pub mod Counted
pub mod Rank
use Prim.Native.Nat.{ℕ, zero, suc, ◌+◌, ◌-◌}
use fleetlift.Prelude.{
  String, Bool, not, Option, none, some, List, [], ◌∷◌, ◌++◌, contains, has, insert, keys, keep,
  length, lookup, eqb, ltb, if◌then◌else◌,
}
use fleetlift.Model.{StepDef}

pub record Graph : Type 0 where
  pub in_degree : List (String × ℕ)
  pub adj : List (String × List String)

-- `inDegree[k]` and `adj[k]`: a missing key reads as 0, and as nil.
abbrev pub degree : String → List (String × ℕ) → ℕ
degree k m = elim (lookup k m) [ none ↦ 0 | some n ↦ n ]

abbrev pub targets : String → List (String × List String) → List String
targets k m = elim (lookup k m) [ none ↦ [] | some ts ↦ ts ]

-- The body of the loop over `step.DependsOn`.
abbrev pub add_edge : List String → String → String → Graph → Graph
add_edge valid id dep g =
    if contains valid dep
    then record {
      adj = insert dep (targets dep g.adj ++ id ∷ []) g.adj;
      in_degree = insert id (degree id g.in_degree + 1) g.in_degree;
    }
    else g

pub add_edges : List String → String → List String → Graph → Graph
add_edges valid id [] g = g
add_edges valid id (dep ∷ deps) g = add_edges valid id deps (add_edge valid id dep g)

abbrev pub start_step : String → Graph → Graph
start_step id g = if has id g.in_degree then g else record g { in_degree = insert id 0 g.in_degree }

pub build_graph : List String → List StepDef → Graph → Graph
build_graph valid [] g = g
build_graph valid (s ∷ ss) g =
    build_graph valid ss
      (if contains valid s.id then add_edges valid s.id s.depends_on (start_step s.id g) else g)

abbrev pub no_graph : Graph
no_graph = record { in_degree = []; adj = [] }

-- The loop over `adj[cur]`.
pub release : List String → List (String × ℕ) × List String → List (String × ℕ) × List String
release [] (m, queue) = (m, queue)
release (next ∷ ts) (m, queue) = release ts (
  insert next (degree next m - 1) m,
  (if eqb (degree next m) 1 then queue ++ next ∷ [] else queue),
)

-- The loop over the queue: the number of steps processed. `none` is out of fuel.
pub kahn : ℕ → List (String × List String) → List (String × ℕ) → List String → ℕ → Option ℕ
kahn zero adj m queue processed = none
kahn (suc fuel) adj m [] processed = some processed
kahn (suc fuel) adj m (cur ∷ queue) processed =
    kahn fuel adj (release (targets cur adj) (m, queue)).0 (release (targets cur adj) (m, queue)).1
      (processed + 1)

-- `processed < len(inDegree)`
pub has_cycle : (List String → List String) → List String → List StepDef → Option Bool
has_cycle range_order valid steps =
    let g = build_graph valid steps no_graph in
    let ids = keys g.in_degree in
    elim (kahn (suc (length ids)) g.adj g.in_degree
      (keep (λ id. eqb (degree id g.in_degree) 0) (range_order ids)) 0) [
        | none ↦ none
        | some processed ↦ some (ltb processed (length ids))
      ]
