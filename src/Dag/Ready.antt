-- ===== src/Dag/Ready.antt =====
-- internal/workflow/dag.go: `findReady`, `isOptional` and `skipDownstream`.
pub mod Laws
use fleetlift.Prelude.{
  ℕ, zero, suc, String, Bool, true, false, ◌&&◌, List, [], ◌∷◌, contains, has, insert,
  if◌then◌else◌, ◌==◌,
}
use fleetlift.Prelude.Text.{◌+++◌}
use fleetlift.Prelude.Sort.{sort_by}
use fleetlift.Model.{StepStatus, StepDef, bare_output}
use fleetlift.Dag.Data.{Outputs, State}

-- `delete(m, k)`
unfoldable pub remove {ℓ} : {V : Type ℓ} → String → List (String × V) → List (String × V)
remove k [] = []
remove k ((j, v) ∷ m) = if j == k then remove k m else (j, v) ∷ remove k m

-- `for _, s := range steps { pending[s.ID] = s }`
unfoldable pub all_pending : List StepDef → List (String × StepDef) → List (String × StepDef)
all_pending [] m = m
all_pending (s ∷ ss) m = all_pending ss (insert s.id s m)

abbrev pub all_done : List String → Outputs → Bool
all_done [] done = true
all_done (dep ∷ deps) done = has dep done && all_done deps done

-- The steps with all dependencies done, in the order of the map.
unfoldable pub unblocked : List (String × StepDef) → Outputs → List StepDef
unblocked [] done = []
unblocked ((k, s) ∷ m) done =
    if all_done s.depends_on done then s ∷ unblocked m done else unblocked m done

unfoldable pub find_ready : List (String × StepDef) → Outputs → List StepDef
find_ready pending done = sort_by (λ s. s.id) (unblocked pending done)

unfoldable pub is_optional : List StepDef → String → Bool
is_optional [] id = false
is_optional (s ∷ ss) id = if s.id == id then s.optional else is_optional ss id

abbrev skip_step : String → String → State → State
skip_step id failed st = record st {
  outputs =
      insert id
        (bare_output id StepStatus.skipped ("skipped: dependency " +++ failed +++ " failed"))
        st.outputs;
  pending = remove id st.pending;
}

-- `skipDownstream`, over what is left of `allSteps`; the fuel bounds how deep it calls itself.
unfoldable pub skip_downstream : ℕ → List StepDef → List StepDef → String → State → State
skip_downstream fuel all [] failed st = st
skip_downstream zero all (s ∷ ss) failed st = st
skip_downstream (suc fuel) all (s ∷ ss) failed st =
    skip_downstream (suc fuel) all ss failed
      (elim (has s.id st.pending && contains s.depends_on failed) [
        | true ↦ skip_downstream fuel all all s.id (skip_step s.id failed st)
        | false ↦ st
      ])
