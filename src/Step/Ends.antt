-- ===== src/Step/Ends.antt =====
-- How a run of `StepWorkflow` ends: it waits for input, or it returns, with the value that
-- `stepRunFinalized` has then.
use fleetlift.Prelude.{Bool, false}
use fleetlift.Model.{StepResult}
use fleetlift.Engine.{Error, Result, ok, err, Run}
use fleetlift.Engine.Monad.{pure}

pub data Outcome : Type 0 where
  waiting : Outcome
  returned : (result : Result StepResult) (finalized : Bool) → Outcome

-- `if err != nil { return nil, change(err) }` before the step run is finalised.
abbrev pub or_return : {A : Type 0} → (Error → Error) → Result A → (A → Run Outcome) → Run Outcome
or_return change (ok a) f = f a
or_return change (err e) f = pure (returned (err (change e)) false)
