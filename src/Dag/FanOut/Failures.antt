-- ===== src/Dag/FanOut/Failures.antt =====
-- internal/workflow/dag.go: when the aggregate of a fan-out has failed.
use fleetlift.Prelude.{
  ℕ, ◌+◌, String, ◌≡◌, refl, Bool, false, not, Option, none, some, List, [], ◌∷◌, length, arith,
  ltb, ◌==◌,
}
use fleetlift.Model.{is_failed, StepResult, StepDef}
use fleetlift.Dag.FanOut.{filled, any_failed, aggregate_fan_out, failures, successes, successful}
use fleetlift.Dag.Data.{DagInput, Outputs, Templates}
use fleetlift.Dag.Steps.{decided}

-- The results that no child set.
abbrev pub missing : List (Option StepResult) → ℕ
missing [] = 0
missing (none ∷ rs) = missing rs + 1
missing (some r ∷ rs) = missing rs

any_failed-filled :
    (id : String) (rs : List (Option StepResult))
    → any_failed (filled id rs) ≡ ltb 0 (failures rs + missing rs)
unfolding any_failed failures
any_failed-filled id [] = refl
any_failed-filled id (none ∷ rs) = ground arith
any_failed-filled id (some r ∷ rs) = ground (arith, any_failed-filled id rs)

-- The aggregate of a fan-out has failed exactly if a result has failed or is missing, and it stands
-- under the step's own id.
pub aggregate_fan_out-failed :
    (id : String) (rs : List (Option StepResult))
    → (is_failed (aggregate_fan_out id rs).status ≡ ltb 0 (failures rs + missing rs))
      × ((aggregate_fan_out id rs).step_id ≡ id)
unfolding aggregate_fan_out failures any_failed
aggregate_fan_out-failed id [] = (refl, refl)
aggregate_fan_out-failed id (none ∷ rs) = (ground (arith, any_failed-filled id (none ∷ rs)), refl)
aggregate_fan_out-failed id (some r ∷ []) = (ground arith, refl)
aggregate_fan_out-failed id (some r ∷ r' ∷ rs) =
    (ground (arith, any_failed-filled id (some r ∷ r' ∷ rs)), refl)

successful-failures :
    (rs : List (Option StepResult)) → (failures (successful rs) ≡ 0) × (missing (successful rs) ≡ 0)
unfolding successful failures
successful-failures [] = (refl, refl)
successful-failures (none ∷ rs) = successful-failures rs
successful-failures (some r ∷ rs) = ground (arith, successful-failures rs)

length-successful : (rs : List (Option StepResult)) → length (successful rs) ≡ successes rs
unfolding successful successes
length-successful [] = refl
length-successful (none ∷ rs) = length-successful rs
length-successful (some r ∷ rs) = ground (arith, length-successful rs)

-- The numbers of failed, good and missing results make up all results, and the good ones are
-- as many as the operator goes on with.
pub failures-successes :
    (rs : List (Option StepResult))
    → (failures rs + successes rs + missing rs ≡ length rs)
      × (length (successful rs) ≡ successes rs)
unfolding failures successes
failures-successes [] = (refl, length-successful [])
failures-successes (none ∷ rs) =
    ground (arith, failures-successes rs, length-successful (none ∷ rs))
failures-successes (some r ∷ rs) =
    ground (arith, failures-successes rs, length-successful (some r ∷ rs))

-- Whether the operator decides to go on.
abbrev pub goes_on : Option String → Bool
goes_on none = false
goes_on (some action) = not (action == "terminate")

-- The step fails after a partial failure exactly if the operator terminates it or does not decide; if
-- it goes on, it does not fail.
pub decided-failed :
    (t : Templates) (input : DagInput) (sandboxes : List (String × String)) (outputs : Outputs)
    (step : StepDef) (rs : List (Option StepResult)) (ratio : String) (action : Option String)
    → is_failed (decided t input sandboxes outputs step rs ratio action).status
      ≡ not (goes_on action)
unfolding decided
decided-failed t input sandboxes outputs step rs ratio none = refl
decided-failed t input sandboxes outputs step rs ratio (some action) =
    ground (arith, aggregate_fan_out-failed step.id (successful rs), successful-failures rs)
