-- ===== src/Validate/Structure/Laws.antt =====
-- What it means that `validateStructure` finds nothing.
use fleetlift.Prelude.{
  ℕ, ◌<◌, String, ◌≡◌, refl, ap, ◌↔◌, inl, inr, Bool, true, false, not, Option, none, some, List,
  [], ◌∷◌, ◌++◌, contains, append-nil_iff, In, IsDistinct, All, All-map, All-zip, ◌==◌, eq_iff,
  eq_refl, arith, Bool-cases,
}
use fleetlift.Model.{StepDef, WorkflowDef, step_ids}
use fleetlift.Validate.Names.{matches_step_id}
use fleetlift.Validate.Kahn.{has_cycle}
use fleetlift.Validate.Kahn.Rank.{IsRanked, IsOrder, has_cycle_total, has_cycle_iff}
use fleetlift.Validate.Structure.{
  is_set, id_errors, valid_ids, unknown_deps, dependency_errors, cycle_errors, kind_errors,
  validate_structure,
}

pub record IsWellFormed (steps : List StepDef) : Type 0 where
  -- Every id matches the pattern, and none stands twice.
  pub named : All (λ s. matches_step_id s.id ≡ true) steps
  pub distinct : IsDistinct (step_ids steps)
  -- Every dependency is a step.
  pub known : All (λ s. All (λ d. In d (step_ids steps)) s.depends_on) steps
  -- Each step ranks above its dependencies: there is no cycle.
  pub rank : String → ℕ
  pub ranked : All (λ s. All (λ d. rank d < rank s.id) s.depends_on) steps
  -- A step has an execution or an action, and not both.
  pub kinds : All (λ s. is_set s.execution ≡ not (is_set s.action)) steps

matches_empty : matches_step_id "" ≡ false
unfolding matches_step_id
matches_empty = refl

-- What the pattern takes is not empty.
ne_empty : (id : String) → matches_step_id id ≡ true → (id == "") ≡ false
ne_empty id h = elim (Bool-cases (id == "")) [
  | inl e ↦ cc (matches_empty, ap matches_step_id ((eq_iff id "").0 e))
  | inr e ↦ e
]

-- No step's id is in `seen`.
abbrev NotIn : List String → List StepDef → Type 0
NotIn seen = All (λ s. contains seen s.id ≡ false)

NotIn-nil : (steps : List StepDef) → NotIn [] steps
NotIn-nil [] = tt
NotIn-nil (s ∷ ss) = (refl, NotIn-nil ss)

NotIn-cons_iff :
    (seen : List String) (a : String) (steps : List StepDef)
    → NotIn (a ∷ seen) steps ↔ (NotIn seen steps × (contains (step_ids steps) a ≡ false))
NotIn-cons_iff seen a [] = ground arith
NotIn-cons_iff seen a (s ∷ ss) =
    ground (arith, NotIn-cons_iff seen a ss, eq_iff a s.id, eq_iff s.id a)

id_errors_iff :
    (seen : List String) (steps : List StepDef)
    → (id_errors seen steps ≡ []) ↔ (
        All (λ s. matches_step_id s.id ≡ true) steps
        × NotIn seen steps
        × IsDistinct (step_ids steps))
unfolding id_errors
id_errors_iff seen [] = (λ _. (tt, tt, tt), λ _. refl)
id_errors_iff seen (s ∷ ss) = ground (
  arith,
  id_errors_iff seen ss,
  id_errors_iff (s.id ∷ seen) ss,
  NotIn-cons_iff seen s.id ss,
  ne_empty s.id,
)

unknown_deps_iff :
    (valid : List String) (id : String) (deps : List String)
    → (unknown_deps valid id deps ≡ []) ↔ All (λ d. In d valid) deps
unfolding unknown_deps
unknown_deps_iff valid id [] = (λ _. tt, λ _. refl)
unknown_deps_iff valid id (d ∷ deps) = ground (arith, unknown_deps_iff valid id deps)

dependency_errors_iff :
    (valid : List String) (steps : List StepDef)
    → (dependency_errors valid steps ≡ []) ↔ All (λ s. All (λ d. In d valid) s.depends_on) steps
unfolding dependency_errors
dependency_errors_iff valid [] = (λ _. tt, λ _. refl)
dependency_errors_iff valid (s ∷ ss) = ground (
  arith,
  append-nil_iff (unknown_deps valid s.id s.depends_on) (dependency_errors valid ss),
  unknown_deps_iff valid s.id s.depends_on,
  dependency_errors_iff valid ss,
)

kind_errors_iff :
    (steps : List StepDef)
    → (kind_errors steps ≡ []) ↔ All (λ s. is_set s.execution ≡ not (is_set s.action)) steps
unfolding kind_errors
kind_errors_iff [] = (λ _. tt, λ _. refl)
kind_errors_iff (s ∷ ss) = ground (arith, kind_errors_iff ss)

valid_ids-eq :
    (steps : List StepDef)
    → All (λ s. matches_step_id s.id ≡ true) steps
    → valid_ids steps ≡ step_ids steps
unfolding valid_ids
valid_ids-eq [] h = refl
valid_ids-eq (s ∷ ss) h = ground (arith, ne_empty s.id h.0, valid_ids-eq ss h.1)

valid_ids-listed :
    (steps : List StepDef) (v : String) → In v (valid_ids steps) → In v (step_ids steps)
unfolding valid_ids
valid_ids-listed [] v h = h
valid_ids-listed (s ∷ ss) v h = ground (arith, valid_ids-listed ss v)

-- With every id and dependency valid, the two ways to say that the steps are ranked agree.
IsRanked-iff :
    (rank : String → ℕ) (valid : List String) (steps : List StepDef)
    → All (λ s. In s.id valid) steps
    → All (λ s. All (λ d. In d valid) s.depends_on) steps
    → IsRanked rank valid steps ↔ All (λ s. All (λ d. rank d < rank s.id) s.depends_on) steps
IsRanked-iff rank valid [] here known = (λ _. tt, λ _. tt)
IsRanked-iff rank valid (s ∷ ss) here known =
    let (to, from) = IsRanked-iff rank valid ss here.1 known.1 in
    (
      λ h. (All-zip s.depends_on (λ d ok less. less ok) known.0 (h.0 here.0), to h.1),
      λ h. (λ _. All-map s.depends_on (λ d less _. less) h.0, from h.1),
    )

-- Every step's id is among those of a list that holds the step.
All-In :
    (all : List String) (steps : List StepDef)
    → ((v : String) → In v (step_ids steps) → In v all)
    → All (λ s. In s.id all) steps
All-In all [] h = tt
All-In all (s ∷ ss) h = (h s.id (rw eq_refl refl), All-In all ss (λ v m. h v (ground (arith, m))))

cycle_errors_iff :
    (r : Option Bool) → (b : Bool) × (r ≡ some b) → (cycle_errors r ≡ []) ↔ (r ≡ some false)
cycle_errors_iff none (b, e) = (λ _. cc, λ _. refl)
cycle_errors_iff (some true) e = (λ h. cc, λ h. cc)
cycle_errors_iff (some false) e = (λ _. refl, λ _. refl)

module _ (range_order : List String → List String) (reorders : IsOrder range_order)
    (def : WorkflowDef) where
  abbrev valid : List String
  valid = valid_ids def.steps

  abbrev cycle_found : Option Bool
  cycle_found = has_cycle range_order valid def.steps

  all_parts_iff : (validate_structure range_order def ≡ []) ↔ (
      (id_errors [] def.steps ≡ [])
      × (dependency_errors valid def.steps ≡ [])
      × (cycle_errors cycle_found ≡ [])
      × (kind_errors def.steps ≡ []))
  unfolding validate_structure
  all_parts_iff = ground (
    arith,
    append-nil_iff (cycle_errors cycle_found) (kind_errors def.steps),
    append-nil_iff (dependency_errors valid def.steps)
        (cycle_errors cycle_found ++ kind_errors def.steps),
    append-nil_iff (id_errors [] def.steps)
        (dependency_errors valid def.steps ++ (cycle_errors cycle_found ++ kind_errors def.steps)),
  )

  no_cycle_iff :
      (cycle_errors cycle_found ≡ []) ↔ ((rank : String → ℕ) × IsRanked rank valid def.steps)
  no_cycle_iff =
      let known = valid_ids-listed def.steps in
      let (to, from) =
        cycle_errors_iff cycle_found (has_cycle_total range_order reorders valid def.steps known) in
      let (to', from') = has_cycle_iff range_order reorders valid def.steps known in
      (λ e. to' (to e), λ r. from (from' r))

  sound : validate_structure range_order def ≡ [] → IsWellFormed def.steps
  sound e =
      let (no_id, no_dep, no_cycle, no_kind) = all_parts_iff.0 e in
      let (named, _, distinct) = (id_errors_iff [] def.steps).0 no_id in
      let same = valid_ids-eq def.steps named in
      let known = (dependency_errors_iff valid def.steps).0 no_dep in
      let (rank, ranked) = no_cycle_iff.0 no_cycle in
      record {
        named = named;
        distinct = distinct;
        known = rw same at known;
        rank = rank;
        ranked =
            (IsRanked-iff rank valid def.steps (rw same (All-In _ def.steps (λ v m. m))) known).0
              ranked;
        kinds = (kind_errors_iff def.steps).0 no_kind;
      }

  complete : IsWellFormed def.steps → validate_structure range_order def ≡ []
  complete w =
      let same = valid_ids-eq def.steps w.named in
      let known : All (λ s. All (λ d. In d valid) s.depends_on) def.steps = rw same w.known in
      all_parts_iff.1 (
        (id_errors_iff [] def.steps).1 (w.named, NotIn-nil def.steps, w.distinct),
        (dependency_errors_iff valid def.steps).1 known,
        no_cycle_iff.1 (
          w.rank,
          (IsRanked-iff w.rank valid def.steps (rw same (All-In _ def.steps (λ v m. m))) known).1
              w.ranked,
        ),
        (kind_errors_iff def.steps).1 w.kinds,
      )

-- `validateStructure` finds nothing exactly in the workflows whose ids match the pattern and are
-- distinct, whose dependencies are steps and have no cycle, and whose steps have one kind each,
-- whatever the order in which Go ranges over a map.
pub validate_structure_iff :
    (range_order : List String → List String)
    → IsOrder range_order
    → (def : WorkflowDef) → (validate_structure range_order def ≡ []) ↔ IsWellFormed def.steps
validate_structure_iff range_order reorders def =
    (sound range_order reorders def, complete range_order reorders def)
