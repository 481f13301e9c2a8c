-- ===== src/Activities/Execute/Laws.antt =====
-- internal/activity/execute.go: `ExecuteStep` answers for its own step.
use fleetlift.Prelude.{
  String, ◌≡◌, refl, Option, none, some, [], lookup, Bool-cases, Option-cases, inl, inr,
}
use fleetlift.Model.{Map, as_bool, StepResult, StepStatus}
use fleetlift.Engine.{ExecuteStepInput}
use fleetlift.Activities.Box.{Host, Box, Act, Answer, done, fails}
use fleetlift.Activities.Structured.{enforce_output_schema}
use fleetlift.Activities.Execute.{
  exit_code, enforced, conclude, schema_of, report, after_agent, insecure, prepared, execute_step,
  is_waiting, ended, repos, unless_insecure,
}
use fleetlift.Activities.Execute.Clone.{go_on, then_done, clone_all, checkout_all}
use fleetlift.Activities.Execute.Agent.{start_agent}

-- An output under a schema has passed it.
abbrev pub Fits : Host → Option Map → Map → Type 0
Fits w none out = Unit
Fits w (some schema) out = (raw : Map) × (enforce_output_schema w raw schema ≡ done out)

abbrev pub ByStatus : Host → Option Map → StepResult → StepStatus → Type 0
ByStatus w schema r StepStatus.complete = (r.error ≡ "") × Fits w schema r.output
ByStatus w schema r StepStatus.failed = r.diff ≡ ""
ByStatus w schema r StepStatus.awaiting_input = (r.output ≡ []) × (r.diff ≡ "")
ByStatus w schema r _ = ⊥

-- A result of the step with this id and this schema.
abbrev pub Reports : String → Option Map → Host → StepResult → Type 0
Reports id schema w r = (r.step_id ≡ id) × ByStatus w schema r r.status

module _ (id : String) (schema : Option Map) where
  abbrev pub Gives : Host → Answer StepResult → Type 0
  Gives w (done r) = Reports id schema w r
  Gives w (fails text) = Unit

  -- Every answer of an activity is such.
  abbrev pub Yields : Act (Answer StepResult) → Type 0
  Yields m = (w : Host) (b : Box) → Gives w (m w b).0

  then_done-Yields :
      {A : Type 0} (m : Act (Answer A)) (f : A → Act (Answer StepResult))
      → ((a : A) → Yields (f a))
      → Yields (then_done m f)
  then_done-Yields {A} m f all w b = go (m w b).0 (m w b).1
    where
      go : (a : Answer A) (b' : Box) → Gives w (go_on f a w b').0
      go (done x) b' = all x w b'
      go (fails text) b' = tt

conclude-Reports :
    (id : String) (schema : Option Map) (raw : Map) (diff : String) (w : Host)
    → Reports id schema w (conclude id schema raw diff w)
conclude-Reports id none raw diff w = (refl, (refl, tt))
conclude-Reports id (some schema) raw diff w = go (enforce_output_schema w raw schema) refl
  where
    go :
        (a : Answer Map)
        → enforce_output_schema w raw schema ≡ a
        → Reports id (some schema) w (enforced id w raw diff a)
    go (done out) e = (refl, (refl, (raw, e)))
    go (fails text) e = (refl, refl)

module _ (input : ExecuteStepInput) where
  abbrev id : String
  id = input.step_input.step_def.id

  abbrev schema : Option Map
  schema = schema_of input.step_input.step_def

  report-Yields : (raw : Map) → Yields id schema (report input raw)
  report-Yields raw w b = elim (Bool-cases (as_bool (lookup "is_error" raw))) [
    | inl reported ↦ rw reported (refl, refl)
    | inr fine ↦ elim (Option-cases (exit_code w (lookup "exit_code" raw))) [
      | inl none_set ↦ rw (fine, none_set) (conclude-Reports id schema raw _ w)
      | inr code ↦ rw (fine, code.1) (refl, refl)
    ]
  ]

  ended-Yields : (last : Option Map) → Yields id schema (ended input last)
  ended-Yields none w b = (refl, refl)
  ended-Yields (some raw) w b = report-Yields raw w b

  after_agent-Yields : (last : Option Map) → Yields id schema (after_agent input last)
  after_agent-Yields last w b = elim (Bool-cases (is_waiting input (w.status_now b.trace))) [
    | inl waits ↦ rw waits (refl, (refl, refl))
    | inr goes_on ↦ rw goes_on (ended-Yields last w b)
  ]

  prepared-Yields : Yields id schema (prepared input)
  prepared-Yields w b =
      then_done-Yields id schema (clone_all input.step_input.run_id (repos input)) _
        (λ u.
          then_done-Yields id schema (checkout_all input.continuation_context (repos input)) _
            λ v w' b'.
              then_done-Yields id schema (start_agent input) (after_agent input) after_agent-Yields
                w' _)
        w _

  unless_insecure-Yields : (o : Option String) → Yields id schema (unless_insecure input o)
  unless_insecure-Yields none w b = prepared-Yields w b
  unless_insecure-Yields (some url) w b = tt

  -- What `ExecuteStep` returns is a result of the step that it was asked for, which is complete,
  -- failed or awaits input. A complete one has no error, and its output has passed the schema that
  -- the step declares, if it declares one.
  pub execute_step-Reports : (w : Host) (b : Box) → Gives id schema w (execute_step input w b).0
  unfolding execute_step
  execute_step-Reports w b = unless_insecure-Yields (insecure input (repos input)) w b
