-- ===== src/Dag/FanOut.antt =====
-- internal/workflow/dag.go: `aggregateFanOut` and `buildFanOutFailureSummary`. A result that a
-- coroutine never set is `none`.
pub mod Failures
use fleetlift.Prelude.{
  ℕ, ◌+◌, String, Bool, true, false, not, ◌&&◌, Option, none, some, List, [], ◌∷◌, if◌then◌else◌,
  ◌==◌,
}
use fleetlift.Prelude.Text.{◌+++◌, join}
use fleetlift.Model.{StepStatus, is_failed, StepResult, StepOutput, bare_result}

-- The results with what stands for a nil one.
abbrev pub filled : String → List (Option StepResult) → List StepResult
filled id [] = []
filled id (none ∷ rs) =
    bare_result id StepStatus.failed "fan-out child failed to produce result" ∷ filled id rs
filled id (some r ∷ rs) = r ∷ filled id rs

unfoldable pub any_failed : List StepResult → Bool
any_failed [] = false
any_failed (r ∷ rs) = if is_failed r.status then true else any_failed rs

-- The errors of the failed results, where they have one.
unfoldable pub failed_errors : List StepResult → List String
failed_errors [] = []
failed_errors (r ∷ rs) =
    if is_failed r.status && not (r.error == "")
    then r.error ∷ failed_errors rs
    else failed_errors rs

abbrev merged : String → List StepResult → StepOutput
merged id rs = record {
  result =
      bare_result id (if any_failed rs then StepStatus.failed else StepStatus.complete)
        (join "; " (failed_errors rs));
  outputs = rs;
}

unfoldable pub aggregate_fan_out : String → List (Option StepResult) → StepOutput
unfolding any_failed failed_errors join
aggregate_fan_out id (some r ∷ []) = record { result = record r { step_id = id }; outputs = [] }
aggregate_fan_out id rs = merged id (filled id rs)

unfoldable pub failure_lines : List (Option StepResult) → List String
failure_lines [] = []
failure_lines (none ∷ rs) = failure_lines rs
failure_lines (some r ∷ rs) =
    if is_failed r.status
    then (r.step_id +++ (if r.error == "" then "" else ": " +++ r.error)) ∷ failure_lines rs
    else failure_lines rs

unfoldable pub build_fan_out_failure_summary : List (Option StepResult) → String
unfolding failure_lines join
build_fan_out_failure_summary rs = join "\n" (failure_lines rs)

-- `fanFailures` and `fanSuccesses`
unfoldable pub failures : List (Option StepResult) → ℕ
failures [] = 0
failures (none ∷ rs) = failures rs
failures (some r ∷ rs) = (if is_failed r.status then 1 else 0) + failures rs

unfoldable pub successes : List (Option StepResult) → ℕ
successes [] = 0
successes (none ∷ rs) = successes rs
successes (some r ∷ rs) = (if is_failed r.status then 0 else 1) + successes rs

-- The results that the operator goes on with.
unfoldable pub successful : List (Option StepResult) → List (Option StepResult)
successful [] = []
successful (none ∷ rs) = successful rs
successful (some r ∷ rs) = if is_failed r.status then successful rs else some r ∷ successful rs
