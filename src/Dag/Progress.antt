-- ===== src/Dag/Progress.antt =====
-- The loop of `DAGWorkflow` on a workflow that was validated: it does not deadlock, it ends within
-- as many rounds as there are steps, and it ends well only with an output for every step.
pub mod Results
pub mod Invariant
pub mod Collect
pub mod Loop
use fleetlift.Prelude.{
  ◌≤◌, String, ◌≡◌, refl, ap, ◌≢◌, subst, Bool, false, Option, none, some, List, [], ◌∷◌, length,
  All, All-zip, if◌then◌else◌, ◌==◌, arith, Bool-cases, inl, inr,
}
use fleetlift.Model.{StepDef, AgentProfileBody, step_ids}
use fleetlift.Engine.{History, World, Result, ok, err}
use fleetlift.Validate.Structure.{validate_structure}
use fleetlift.Validate.Structure.Laws.{IsWellFormed, validate_structure_iff}
use fleetlift.Validate.Kahn.Rank.{IsOrder}
use fleetlift.Dag.Data.{DagInput, Templates, State}
use fleetlift.Dag.Exit.{Exit, done, out_of_fuel, stopped, Reason, deadlock, no_profile, not_marked}
use fleetlift.Dag.Ready.{all_pending}
use fleetlift.Dag.Ready.Laws.{has-all_pending, length-all_pending-le, all_pending-All}
use fleetlift.Dag.Workflow.{
  start_state, run_loop, all_credentials, preflighted, preflight, check_credentials, checked_loop,
  with_profile, profiled, dag_body, marked, dag_workflow,
}
use Results.{AnswersOwn}
use Invariant.{Entry, Inv}
use Loop.{Ends, dag_loop-Ends}

module _ (t : Templates) (input : DagInput) (well : IsWellFormed input.workflow_def.steps)
    (w : World) (own : AnswersOwn w) where
  start-Inv : Inv (step_ids input.workflow_def.steps) well.rank (start_state t input)
  start-Inv = record {
    entries =
        all_pending-All (Entry (step_ids input.workflow_def.steps) well.rank)
          input.workflow_def.steps []
          (All-zip input.workflow_def.steps
            (λ s known ranked. (refl, All-zip s.depends_on (λ d k r. (k, r)) known ranked))
            well.known well.ranked)
          tt;
    covered = λ v known. inr (ground (arith, has-all_pending v input.workflow_def.steps [], known));
  }

  run_loop-Ends :
      (profile : Option AgentProfileBody) (h : History)
      → Ends t input profile w own well.rank (run_loop t input profile w h).0
  unfolding run_loop
  run_loop-Ends profile h =
      dag_loop-Ends t input profile w own well.rank (length input.workflow_def.steps)
        (start_state t input) h (omega (arith, length-all_pending-le input.workflow_def.steps []))
        start-Inv tt

-- An end by the steps or by an activity: neither out of fuel nor in a deadlock.
abbrev pub IsLive : Exit → Type 0
IsLive e = (e ≢ out_of_fuel) × (e ≢ stopped deadlock)

stopped-IsLive : (r : Reason) → r ≢ deadlock → IsLive (stopped r)
stopped-IsLive r fine = (λ p. cc, λ p. fine (cc p))

module _ (t : Templates) (input : DagInput) (well : IsWellFormed input.workflow_def.steps)
    (w : World) (own : AnswersOwn w) where
  Ends-IsLive : (r : Exit × State) → Ends t input none w own well.rank r → IsLive r.0
  Ends-IsLive (done, st) e = (λ p. cc, λ p. cc)
  Ends-IsLive (out_of_fuel, st) e = absurd e
  Ends-IsLive (stopped r, st) e = stopped-IsLive r e

  preflighted-fine : (r : Result String) → preflighted t input r ≢ some deadlock
  preflighted-fine (ok s) = λ p. cc
  preflighted-fine (err e) = λ p. cc

  preflight-fine :
      (names : List String) (h : History) → (preflight t input names w h).0 ≢ some deadlock
  preflight-fine [] h = λ p. cc
  preflight-fine (n ∷ ns) h = preflighted-fine (w.reply _)

  checked-IsLive :
      (profile : Option AgentProfileBody) (c : Option Reason) (h : History)
      → c ≢ some deadlock
      → IsLive (checked_loop t input profile c w h).0.0
  checked-IsLive profile none h fine = Ends-IsLive _ (run_loop-Ends t input well w own profile h)
  checked-IsLive profile (some r) h fine = stopped-IsLive r (λ p. fine (ap some p))

  with_profile-IsLive :
      (profile : Option AgentProfileBody) (h : History)
      → IsLive (with_profile t input profile w h).0.0
  unfolding check_credentials
  with_profile-IsLive profile h =
      checked-IsLive profile _ _
        (preflight-fine (all_credentials input.workflow_def.steps profile) h)

  profiled-IsLive :
      (r : Result AgentProfileBody) (h : History) → IsLive (profiled t input r w h).0.0
  profiled-IsLive (ok p) h = with_profile-IsLive (some p) h
  profiled-IsLive (err e) h = stopped-IsLive (no_profile e) (λ p. cc)

  dag_body-IsLive : (h : History) → IsLive (dag_body t input w h).0.0
  unfolding dag_body
  dag_body-IsLive h = elim (Bool-cases (input.workflow_def.agent_profile == "")) [
    | inl unset ↦ rw unset (with_profile-IsLive none h)
    | inr named ↦ rw named (profiled-IsLive (w.profile _) _)
  ]

  marked-IsLive : (r : Result String) (h : History) → IsLive (marked t input r w h).0
  marked-IsLive (ok s) h = dag_body-IsLive h
  marked-IsLive (err e) h = stopped-IsLive (not_marked e) (λ p. cc)

-- If `validateStructure` finds nothing in the workflow, whatever the order in which Go ranges over a
-- map, and if each child workflow returns the output of its own step, `DAGWorkflow` neither runs
-- into its deadlock error nor past as many rounds as it has steps.
pub dag_workflow_ends :
    (t : Templates) (input : DagInput) (range_order : List String → List String)
    → IsOrder range_order
    → validate_structure range_order input.workflow_def ≡ []
    → (w : World) → AnswersOwn w
    → (h : History) → IsLive (dag_workflow t input w h).0
unfolding dag_workflow
dag_workflow_ends t input range_order reorders valid w own h =
    let well = (validate_structure_iff range_order reorders input.workflow_def).0 valid in
    marked-IsLive t input well w own (w.reply _) _
