-- ===== src/Validate/Kahn/Rank.antt =====
-- The cycle detection decides whether the steps can be ranked, each above its dependencies.
use fleetlift.Prelude.{
  ℕ, suc, ◌<◌, String, ◌≡◌, ◌∙◌, ◌↔◌, ◌&&◌, ◌||◌, In, Bool, true, false, some, inl, inr, List, [],
  ◌∷◌, ◌++◌, contains, keys, keep, eqb, ltb, if◌then◌else◌, eq_iff, arith, count, count_zero,
  count_pos, count-le_one, length, All, Bool-cases,
}
use fleetlift.Model.{StepDef, step_ids}
use fleetlift.Validate.Kahn.{Graph, degree, build_graph, no_graph, kahn, has_cycle}
use fleetlift.Validate.Kahn.Build.{
  Edges, step_edges, edges, Holds, HasKeys, listed_ids, build_graph-Holds, no_graph-Holds,
  build_graph-HasKeys, no_graph-HasKeys,
}
use fleetlift.Validate.Kahn.Loop.{open_into-nil, rank_of, IsTopo-nil, Inv, kahn-Inv}
use fleetlift.Validate.Kahn.Counted.{
  Within, Ranks, Within→ends, IsTopo→Ranks, all_processed, ranked_length,
}

-- The steps can be ranked: each valid step stands above its valid dependencies.
abbrev pub IsRanked : (String → ℕ) → List String → List StepDef → Type 0
IsRanked rank valid = All (λ s.
    contains valid s.id ≡ true
    → All (λ d. contains valid d ≡ true → rank d < rank s.id) s.depends_on)

step_Ranks→ :
    (rank : String → ℕ) (valid : List String) (id : String) (deps : List String) (rest : Edges)
    → Ranks rank (step_edges valid id deps ++ rest)
    → All (λ d. contains valid d ≡ true → rank d < rank id) deps × Ranks rank rest
step_Ranks→ rank valid id [] rest h = (tt, h)
step_Ranks→ rank valid id (d ∷ deps) rest h = ground (arith, step_Ranks→ rank valid id deps rest)

→step_Ranks :
    (rank : String → ℕ) (valid : List String) (id : String) (deps : List String) (rest : Edges)
    → All (λ d. contains valid d ≡ true → rank d < rank id) deps
    → Ranks rank rest
    → Ranks rank (step_edges valid id deps ++ rest)
→step_Ranks rank valid id [] rest h r = r
→step_Ranks rank valid id (d ∷ deps) rest h r =
    ground (arith, h.0, →step_Ranks rank valid id deps rest h.1 r)

→Ranks :
    (rank : String → ℕ) (valid : List String) (steps : List StepDef)
    → IsRanked rank valid steps
    → Ranks rank (edges valid steps)
→Ranks rank valid [] h = tt
→Ranks rank valid (s ∷ ss) h = ground (
  arith,
  h.0,
  →Ranks rank valid ss h.1,
  →step_Ranks rank valid s.id s.depends_on (edges valid ss),
)

Ranks→ :
    (rank : String → ℕ) (valid : List String) (steps : List StepDef)
    → Ranks rank (edges valid steps)
    → IsRanked rank valid steps
Ranks→ rank valid [] h = tt
Ranks→ rank valid (s ∷ ss) h = elim (Bool-cases (contains valid s.id)) [
  | inl ok ↦
      let (here, rest) =
        step_Ranks→ rank valid s.id s.depends_on (edges valid ss) (rw (ok, edges) at h) in
      (λ _. here, Ranks→ rank valid ss rest)
  | inr bad ↦ (λ e. cc, Ranks→ rank valid ss (rw (bad, edges) at h))
]

step_edges-Within :
    (valid : List String) (id : String) (deps : List String) (rest : Edges)
    → contains valid id ≡ true
    → Within valid rest
    → Within valid (step_edges valid id deps ++ rest)
step_edges-Within valid id [] rest ok h = h
step_edges-Within valid id (d ∷ deps) rest ok h =
    ground (arith, step_edges-Within valid id deps rest ok h)

edges-Within : (valid : List String) (steps : List StepDef) → Within valid (edges valid steps)
edges-Within valid [] = tt
edges-Within valid (s ∷ ss) =
    ground
      (arith, edges-Within valid ss, step_edges-Within valid s.id s.depends_on (edges valid ss))

count-keep :
    (p : String → Bool) (v : String) (xs : List String)
    → count v (keep p xs) ≡ (if p v then count v xs else 0)
count-keep p v [] = ground arith
count-keep p v (x ∷ xs) = ground (arith, count-keep p v xs, eq_iff x v)

contains-listed_ids :
    (valid : List String) (steps : List StepDef) (seen : List String) (v : String)
    → contains (listed_ids valid steps seen) v
      ≡ (contains seen v || (contains valid v && contains (step_ids steps) v))
contains-listed_ids valid [] seen v = ground arith
contains-listed_ids valid (s ∷ ss) seen v = ground (
  arith,
  contains-listed_ids valid ss seen v,
  contains-listed_ids valid ss (s.id ∷ seen) v,
  eq_iff s.id v,
)

-- A map may be ranged over in any order.
abbrev pub IsOrder : (List String → List String) → Type 0
IsOrder f = (l : List String) (v : String) → count v (f l) ≡ count v l

module _ (range_order : List String → List String) (reorders : IsOrder range_order)
    (valid : List String) (steps : List StepDef)
    (listed : (v : String) → In v valid → In v (step_ids steps)) where
  abbrev built : Graph
  built = build_graph valid steps no_graph

  abbrev ids : List String
  ids = keys built.in_degree

  abbrev start : List String
  start = keep (λ id. eqb (degree id built.in_degree) 0) (range_order ids)

  has_keys : HasKeys (listed_ids valid steps []) built
  has_keys = build_graph-HasKeys [] valid steps no_graph no_graph-HasKeys

  has_edges : Holds (edges valid steps) built
  has_edges = build_graph-Holds [] valid steps no_graph no_graph-Holds

  ids-valid : (v : String) → contains ids v ≡ contains valid v
  ids-valid v = ground (arith, has_keys.listed v, contains-listed_ids valid steps [] v, listed v)

  count-ids : (v : String) → count v ids ≡ (if contains valid v then 1 else 0)
  count-ids v =
      ground (
        arith,
        ids-valid v,
        count_pos v ids,
        count_zero v ids,
        count-le_one v ids has_keys.distinct,
      )

  start-Inv : Inv (edges valid steps) valid [] [] start built.in_degree
  start-Inv = record {
    degrees = λ v. omega (arith, has_edges.degrees v, open_into-nil v (edges valid steps));
    placed = λ v. ground (
      arith,
      count-keep (λ id. eqb (degree id built.in_degree) 0) v (range_order ids),
      reorders ids v,
      count-ids v,
    );
    topo = IsTopo-nil (edges valid steps);
  }

  ended :
      (final : List String) × (m : List (String × ℕ)) × (kahn
          (suc (length ids))
          built.adj
          built.in_degree
          start
          0
        ≡ some (length final))
      × Inv (edges valid steps) valid [] final [] m
  ended =
      kahn-Inv (edges valid steps) valid
        (Within→ends valid (edges valid steps) (edges-Within valid steps)) built.adj has_edges.lists
        ids (λ v ok. count_pos v ids (ids-valid v ∙ ok)) (suc (length ids)) [] start built.in_degree
        (omega arith) start-Inv

  cycle_value : has_cycle range_order valid steps ≡ some (ltb (length ended.0) (length ids))
  unfolding has_cycle
  cycle_value = rw (ended.2, has_cycle)

  -- The loop ends within its fuel.
  pub has_cycle_total : (b : Bool) × (has_cycle range_order valid steps ≡ some b)
  has_cycle_total = (_, cycle_value)

  -- A cycle is reported exactly when the steps cannot be ranked.
  pub has_cycle_iff :
      (has_cycle range_order valid steps ≡ some false)
      ↔ ((rank : String → ℕ) × IsRanked rank valid steps)
  has_cycle_iff = (
    λ e. (
      rank_of ended.0,
      Ranks→ (rank_of ended.0) valid steps (
          IsTopo→Ranks valid ended.0 (edges valid steps)
            (all_processed (edges valid steps) valid ended.0 ids ended.1 ended.3
              (λ v. ground (arith, count-ids v)) ids-valid (ground (arith, cycle_value)))
            (edges-Within valid steps) ended.3.topo),
    ),
    λ (rank, r).
        cycle_value
        ∙ ground (
          arith,
          ranked_length (edges valid steps) valid ended.0 ids ended.1 ended.3
              (λ v. ground (arith, count-ids v)) ids-valid rank (edges-Within valid steps)
              (→Ranks rank valid steps r),
        ),
  )
