-- ===== src/Dag/Exit.antt =====
-- internal/workflow/dag.go: how `DAGWorkflow` ends. Each error that it returns is named for the
-- statement that makes it.
use fleetlift.Prelude.{String, true, List}
use fleetlift.Prelude.Text.{◌+++◌, join}
use fleetlift.Engine.{Error, wrap, failure}

pub data Reason : Type 0 where
  canceled_run deadlock : Reason
  not_marked no_profile no_credentials : Error → Reason
  no_sandbox : (group : String) (error : Error) → Reason
  steps_failed : (messages : List String) → Reason

-- The error that is returned.
unfoldable pub error_of : Reason → Error
unfolding join
error_of canceled_run = record { text = "canceled"; canceled = true }
error_of deadlock = failure "DAG deadlock: circular dependency or all steps blocked"
error_of (not_marked e) = wrap "mark run running" e
error_of (no_profile e) = wrap "resolve agent profile" e
error_of (no_credentials e) = wrap "credential preflight" e
error_of (no_sandbox group e) = wrap ("provision sandbox group " +++ group) e
error_of (steps_failed messages) = failure (join "; " messages)

-- With the steps all done, for a reason that is an error, or out of fuel.
pub data Exit : Type 0 where
  done out_of_fuel : Exit
  stopped : Reason → Exit
