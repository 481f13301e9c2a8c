-- ===== src/Validate/Upstream.antt =====
-- internal/workflow/validate.go: `upstreamOf`, the breadth-first search for all that a step depends on.
pub mod Search
pub mod Laws
use fleetlift.Prelude.{
  ℕ, zero, suc, ◌+◌, String, Bool, Option, none, some, List, [], ◌∷◌, ◌++◌, contains, lookup,
  insert, length, if◌then◌else◌,
}
use fleetlift.Model.{StepDef}

-- `dependsMap`: of two steps of one id the later counts.
abbrev pub Depends : Type 0
Depends = List (String × List String)

unfoldable pub depends_map : List StepDef → Depends → Depends
unfolding insert
depends_map [] m = m
depends_map (s ∷ ss) m = depends_map ss (insert s.id s.depends_on m)

-- `dependsMap[cur]`
abbrev pub parents : Depends → String → List String
parents m cur = elim (lookup cur m) [ none ↦ [] | some deps ↦ deps ]

-- The loop over the dependencies of one step: `visited` and the queue.
unfoldable pub visit : List String → List String × List String → List String × List String
visit [] (visited, queue) = (visited, queue)
visit (dep ∷ deps) (visited, queue) =
    visit deps
      (if contains visited dep then (visited, queue) else (dep ∷ visited, queue ++ dep ∷ []))

-- The loop over the queue; `none` is out of fuel.
unfoldable pub search_up : ℕ → Depends → List String → List String → Option (List String)
unfolding visit lookup
search_up fuel m [] visited = some visited
search_up zero m (cur ∷ queue) visited = none
search_up (suc fuel) m (cur ∷ queue) visited =
    let next = visit (parents m cur) (visited, queue) in search_up fuel m next.1 next.0

-- All that the steps of the map depend on.
abbrev pub all_parents : Depends → List String
all_parents [] = []
all_parents ((id, deps) ∷ m) = deps ++ all_parents m

-- Each name enters the queue once, and the step itself.
unfoldable pub upstream_of : String → List StepDef → Option (List String)
unfolding depends_map search_up
upstream_of id steps =
    let m = depends_map steps [] in search_up (suc (length (all_parents m))) m (id ∷ []) []
