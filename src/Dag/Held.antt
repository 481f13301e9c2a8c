-- ===== src/Dag/Held.antt =====
-- internal/workflow/dag.go: the steps that their dependencies hold back.
use fleetlift.Prelude.{
  String, ◌≡◌, refl, true, false, ◌||◌, Option, none, some, List, [], ◌∷◌, In, lookup, arith,
  eq_iff, Bool-cases, Option-cases, inl, inr, ◌==◌,
}
use fleetlift.Model.{StepStatus, is_failed, is_skipped, StepOutput, StepDef, AgentProfileBody}
use fleetlift.Engine.{History, World}
use fleetlift.Dag.Data.{DagInput, Outputs, Templates}
use fleetlift.Dag.Steps.{blocking, run_step}

-- A dependency that did not complete.
abbrev pub Blocks : Outputs → String → StepOutput → Type 0
Blocks outputs dep out =
    (lookup dep outputs ≡ some out) × ((is_skipped out.status || is_failed out.status) ≡ true)

blocking-none :
    (deps : List String) (outputs : Outputs) (dep : String) (out : StepOutput)
    → blocking deps outputs ≡ none
    → In dep deps
    → lookup dep outputs ≡ some out
    → (is_skipped out.status || is_failed out.status) ≡ false
unfolding blocking
blocking-none [] outputs dep out e known found = cc
blocking-none (d ∷ deps) outputs dep out e known found = elim (Option-cases (lookup d outputs)) [
  | inl absent ↦ ground (
    arith,
    absent,
    found,
    eq_iff d dep,
    blocking-none deps outputs dep out (rw (absent, blocking) at e),
  )
  | inr (o, there) ↦ elim (Bool-cases (is_skipped o.status || is_failed o.status)) [
    | inl bad ↦ cc (rw (there, bad, blocking) at e)
    | inr good ↦ elim (Bool-cases (d == dep)) [
      | inl same ↦ cc (there, found, (eq_iff d dep).0 same, good)
      | inr other ↦
          blocking-none deps outputs dep out (rw (there, good, blocking) at e)
            (ground (arith, known, other)) found
    ]
  ]
]

-- A step that is not optional and has a dependency whose output is skipped or failed is skipped: its
-- coroutine issues no activity.
pub run_step-held :
    (t : Templates) (input : DagInput) (sandboxes : List (String × String)) (outputs : Outputs)
    (profile : Option AgentProfileBody) (step : StepDef)
    → step.optional ≡ false
    → (dep : String) (out : StepOutput) → In dep step.depends_on
    → Blocks outputs dep out
    → (w : World) (h : History)
    → (let (r, h') = run_step t input sandboxes outputs profile step w h in
        (r.status ≡ StepStatus.skipped) × (r.step_id ≡ step.id) × (h' ≡ h))
unfolding run_step
run_step-held t input sandboxes outputs profile step needed dep out known blocks w h =
    elim (Option-cases (blocking step.depends_on outputs)) [
      | inl free ↦ cc (blocking-none step.depends_on outputs dep out free known blocks.0, blocks.1)
      | inr (by, held) ↦ rw (needed, held) (refl, refl, refl)
    ]
