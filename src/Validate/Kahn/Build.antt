-- ===== src/Validate/Kahn/Build.antt =====
-- What the maps of the cycle detection hold once they are built: the edges, counted and listed.
use fleetlift.Prelude.{
  ℕ, ◌+◌, String, ◌≡◌, refl, true, List, [], ◌∷◌, ◌++◌, contains, has, insert, keys, lookup,
  IsDistinct, if◌then◌else◌, ◌==◌, eq_iff, eq_refl, arith, lookup-insert, has-insert, lookup-none,
  Bool-cases, inl, inr, insert-IsDistinct,
}
use mathlib.Core.List.{append_assoc, append-nil}
use fleetlift.Model.{StepDef}
use fleetlift.Validate.Kahn.{
  Graph, degree, targets, add_edge, add_edges, start_step, build_graph, no_graph,
}

-- An edge leads from a dependency to the step that waits for it.
abbrev pub Edges : Type 0
Edges = List (String × String)

abbrev pub step_edges : List String → String → List String → Edges
step_edges valid id [] = []
step_edges valid id (dep ∷ deps) =
    if contains valid dep then (dep, id) ∷ step_edges valid id deps else step_edges valid id deps

abbrev pub edges : List String → List StepDef → Edges
edges valid [] = []
edges valid (s ∷ ss) =
    if contains valid s.id
    then step_edges valid s.id s.depends_on ++ edges valid ss
    else edges valid ss

-- The edges into `v`, counted, and the ends of the edges out of `u`.
abbrev pub into : String → Edges → ℕ
into v [] = 0
into v ((u, w) ∷ es) = (if w == v then 1 else 0) + into v es

abbrev pub out_of : String → Edges → List String
out_of u [] = []
out_of u ((w, v) ∷ es) = if w == u then v ∷ out_of u es else out_of u es

-- The maps of `g` are those of the edges `es`.
pub record Holds (es : Edges) (g : Graph) : Type 0 where
  pub degrees : (v : String) → degree v g.in_degree ≡ into v es
  pub lists : (u : String) → targets u g.adj ≡ out_of u es

into-append : (v : String) (xs ys : Edges) → into v (xs ++ ys) ≡ into v xs + into v ys
into-append v [] ys = ground arith
into-append v ((u, w) ∷ xs) ys = ground (arith, into-append v xs ys)

out_of-append : (u : String) (xs ys : Edges) → out_of u (xs ++ ys) ≡ out_of u xs ++ out_of u ys
out_of-append u [] ys = refl
out_of-append u ((w, v) ∷ xs) ys = ground (arith, out_of-append u xs ys)

pub degree-insert :
    (k v : String) (n : ℕ) (m : List (String × ℕ))
    → degree v (insert k n m) ≡ (if k == v then n else degree v m)
degree-insert k v n m = ground (arith, lookup-insert k v n m)

targets-insert :
    (k u : String) (ts : List String) (m : List (String × List String))
    → targets u (insert k ts m) ≡ (if k == u then ts else targets u m)
targets-insert k u ts m = ground (arith, lookup-insert k u ts m)

add_edge-Holds :
    (es : Edges) (valid : List String) (id dep : String) (g : Graph)
    → Holds es g
    → Holds (es ++ step_edges valid id (dep ∷ [])) (add_edge valid id dep g)
add_edge-Holds es valid id dep g h = record {
  degrees = λ v. ground (
    arith,
    h.degrees v,
    h.degrees id,
    degree-insert id v (degree id g.in_degree + 1) g.in_degree,
    into-append v es (step_edges valid id (dep ∷ [])),
    eq_iff id v,
  );
  lists = λ u. ground (
    arith,
    h.lists u,
    h.lists dep,
    targets-insert dep u (targets dep g.adj ++ id ∷ []) g.adj,
    out_of-append u es (step_edges valid id (dep ∷ [])),
    append-nil (out_of u es),
    append-nil es,
    eq_iff dep u,
  );
}

step_edges-cons :
    (valid : List String) (id dep : String) (deps : List String)
    → step_edges valid id (dep ∷ []) ++ step_edges valid id deps ≡ step_edges valid id (dep ∷ deps)
step_edges-cons valid id dep deps = ground arith

add_edges-Holds :
    (es : Edges) (valid : List String) (id : String) (deps : List String) (g : Graph)
    → Holds es g
    → Holds (es ++ step_edges valid id deps) (add_edges valid id deps g)
unfolding add_edges
add_edges-Holds es valid id [] g h = rw append-nil h
add_edges-Holds es valid id (dep ∷ deps) g h = rw (← step_edges-cons valid id dep deps) (
    rw (← append_assoc) (
      add_edges-Holds (es ++ step_edges valid id (dep ∷ [])) valid id deps (add_edge valid id dep g)
        (add_edge-Holds es valid id dep g h)))

start_step-Holds : (es : Edges) (id : String) (g : Graph) → Holds es g → Holds es (start_step id g)
start_step-Holds es id g h = record {
  degrees = λ v. ground (
    arith,
    h.degrees v,
    degree-insert id v 0 g.in_degree,
    eq_iff id v,
    lookup-none id g.in_degree,
  );
  lists = λ u. ground (arith, h.lists u);
}

pub build_graph-Holds :
    (es : Edges) (valid : List String) (steps : List StepDef) (g : Graph)
    → Holds es g
    → Holds (es ++ edges valid steps) (build_graph valid steps g)
unfolding build_graph
build_graph-Holds es valid [] g h = rw append-nil h
build_graph-Holds es valid (s ∷ ss) g h = elim (Bool-cases (contains valid s.id)) [
  | inl ok ↦ rw ok (
      rw (← append_assoc) (
        build_graph-Holds (es ++ step_edges valid s.id s.depends_on) valid ss _
          (add_edges-Holds es valid s.id s.depends_on _ (start_step-Holds es s.id g h))))
  | inr bad ↦ rw bad (build_graph-Holds es valid ss g h)
]

pub no_graph-Holds : Holds [] no_graph
unfolding lookup
no_graph-Holds = record { degrees = λ v. refl; lists = λ u. refl }

-- The keys of `inDegree`: distinct, and those of the steps that are valid.
pub record HasKeys (ids : List String) (g : Graph) : Type 0 where
  pub distinct : IsDistinct (keys g.in_degree)
  pub listed : (v : String) → has v g.in_degree ≡ contains ids v

add_edges-HasKeys :
    (ids valid : List String) (id : String) (deps : List String) (g : Graph)
    → contains ids id ≡ true
    → HasKeys ids g
    → HasKeys ids (add_edges valid id deps g)
unfolding add_edges
add_edges-HasKeys ids valid id [] g e h = h
add_edges-HasKeys ids valid id (dep ∷ deps) g e h =
    add_edges-HasKeys ids valid id deps (add_edge valid id dep g) e record {
      distinct = ground (
        arith,
        h.distinct,
        insert-IsDistinct id (degree id g.in_degree + 1) g.in_degree h.distinct,
      );
      listed = λ v. ground (
        arith,
        h.listed v,
        h.listed id,
        has-insert id v (degree id g.in_degree + 1) g.in_degree,
        eq_iff id v,
      );
    }

start_step-HasKeys :
    (ids : List String) (id : String) (g : Graph)
    → HasKeys ids g
    → HasKeys (id ∷ ids) (start_step id g)
start_step-HasKeys ids id g h = record {
  distinct = ground (arith, h.distinct, insert-IsDistinct id 0 g.in_degree h.distinct);
  listed = λ v. ground (arith, h.listed v, h.listed id, has-insert id v 0 g.in_degree, eq_iff id v);
}

-- The ids of the steps, last first, where valid.
abbrev pub listed_ids : List String → List StepDef → List String → List String
listed_ids valid [] ids = ids
listed_ids valid (s ∷ ss) ids =
    listed_ids valid ss (if contains valid s.id then s.id ∷ ids else ids)

pub build_graph-HasKeys :
    (ids valid : List String) (steps : List StepDef) (g : Graph)
    → HasKeys ids g
    → HasKeys (listed_ids valid steps ids) (build_graph valid steps g)
unfolding build_graph
build_graph-HasKeys ids valid [] g h = h
build_graph-HasKeys ids valid (s ∷ ss) g h = elim (Bool-cases (contains valid s.id)) [
  | inl ok ↦ rw ok (
      build_graph-HasKeys (s.id ∷ ids) valid ss _ (
        add_edges-HasKeys (s.id ∷ ids) valid s.id s.depends_on _ (rw eq_refl refl)
          (start_step-HasKeys ids s.id g h)))
  | inr bad ↦ rw bad (build_graph-HasKeys ids valid ss g h)
]

pub no_graph-HasKeys : HasKeys [] no_graph
no_graph-HasKeys = record { distinct = tt; listed = λ v. refl }
