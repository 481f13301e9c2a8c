-- ===== src/Dag/Final.antt =====
-- internal/workflow/dag.go: the status that `DAGWorkflow` writes to the record of the run.
pub mod Steps
pub mod Loop
use fleetlift.Prelude.{
  String, ◌≡◌, refl, ap, ◌∙◌, Bool, true, false, Option, none, some, List, [], ◌∷◌, arith,
  Bool-cases, inl, inr, if◌then◌else◌, ◌==◌,
}
use fleetlift.Prelude.Sort.{sort_by}
use fleetlift.Model.{RunStatus, AgentProfileBody}
use fleetlift.Engine.{History, World, Result, ok, err, update_run_status}
use fleetlift.Dag.Data.{DagInput, Templates, State}
use fleetlift.Dag.Exit.{
  Exit, done, out_of_fuel, stopped, Reason, canceled_run, deadlock, not_marked, no_profile,
  no_credentials, no_sandbox, steps_failed, error_of,
}
use fleetlift.Dag.Workflow.{
  all_credentials, preflight, check_credentials, cleanup_groups, run_loop, checked_loop,
  with_profile, profiled, dag_body, start_state, final_status, wants_notification, notify,
  finish_run, marked, dag_workflow,
}
use Steps.{run_records}
use Loop.{dag_loop-Quiet}

module _ (t : Templates) (input : DagInput) (w : World) where
  cleanup_groups-quiet :
      (groups : List (String × String)) (h : History)
      → run_records (cleanup_groups t input groups w h).1 ≡ run_records h
  unfolding cleanup_groups
  cleanup_groups-quiet [] h = refl
  cleanup_groups-quiet (g ∷ gs) h = cleanup_groups-quiet gs _

  run_loop-quiet :
      (profile : Option AgentProfileBody) (h : History)
      → run_records (run_loop t input profile w h).1 ≡ run_records h
  unfolding run_loop
  run_loop-quiet profile h =
      cleanup_groups-quiet _ _ ∙ dag_loop-Quiet t input profile w _ (start_state t input) h

  preflight-quiet :
      (names : List String) (h : History)
      → run_records (preflight t input names w h).1 ≡ run_records h
  preflight-quiet [] h = refl
  preflight-quiet (n ∷ ns) h = refl

  checked-quiet :
      (profile : Option AgentProfileBody) (c : Option Reason) (h : History)
      → run_records (checked_loop t input profile c w h).1 ≡ run_records h
  checked-quiet profile none h = run_loop-quiet profile h
  checked-quiet profile (some r) h = refl

  with_profile-quiet :
      (profile : Option AgentProfileBody) (h : History)
      → run_records (with_profile t input profile w h).1 ≡ run_records h
  unfolding check_credentials
  with_profile-quiet profile h =
      let (checked, h') = check_credentials t input profile w h in
      checked-quiet profile checked h'
      ∙ preflight-quiet (all_credentials input.workflow_def.steps profile) h

  profiled-quiet :
      (r : Result AgentProfileBody) (h : History)
      → run_records (profiled t input r w h).1 ≡ run_records h
  profiled-quiet (ok p) h = with_profile-quiet (some p) h
  profiled-quiet (err e) h = refl

  dag_body-quiet : (h : History) → run_records (dag_body t input w h).1 ≡ run_records h
  unfolding dag_body
  dag_body-quiet h = elim (Bool-cases (input.workflow_def.agent_profile == "")) [
    | inl unset ↦ rw unset (with_profile-quiet none h)
    | inr named ↦ rw named (profiled-quiet (w.profile _) _)
  ]

  finish_run-written :
      (exit : Exit) (notified : Bool) (h : History)
      → run_records (finish_run t input exit notified w h).1
        ≡ (input.run_id, final_status t input exit) ∷ run_records h
  unfolding finish_run
  finish_run-written exit notified h =
      elim (Bool-cases (wants_notification t input (final_status t input exit) notified)) [
        | inl wanted ↦ rw wanted refl
        | inr unwanted ↦ rw unwanted refl
      ]

  -- The statuses of a run that ends with `exit`, by the answer to the first activity, the latest
  -- first.
  abbrev statuses : Result String → Exit → List (String × RunStatus) → List (String × RunStatus)
  statuses (err e) exit before = (input.run_id, RunStatus.running) ∷ before
  statuses (ok s) exit before =
      (input.run_id, final_status t input exit) ∷ (input.run_id, RunStatus.running) ∷ before

  marked-statuses :
      (r : Result String) (h : History) (before : List (String × RunStatus))
      → run_records h ≡ (input.run_id, RunStatus.running) ∷ before
      → run_records (marked t input r w h).1 ≡ statuses r (marked t input r w h).0 before
  marked-statuses (err e) h before q = q
  marked-statuses (ok s) h before q =
      let (ended, h') = dag_body t input w h in
      finish_run-written ended.0 ended.1.notified h'
      ∙ ap (λ l. (input.run_id, final_status t input ended.0) ∷ l) (dag_body-quiet h ∙ q)

-- The reasons that are a cancellation: that of the run, or one that an activity answers.
abbrev pub is_cancellation : Reason → Bool
is_cancellation canceled_run = true
is_cancellation deadlock = false
is_cancellation (steps_failed messages) = false
is_cancellation (not_marked e) = e.canceled
is_cancellation (no_profile e) = e.canceled
is_cancellation (no_credentials e) = e.canceled
is_cancellation (no_sandbox group e) = e.canceled

error_of-canceled : (r : Reason) → (error_of r).canceled ≡ is_cancellation r
unfolding error_of
error_of-canceled canceled_run = refl
error_of-canceled deadlock = refl
error_of-canceled (steps_failed messages) = refl
error_of-canceled (not_marked e) = refl
error_of-canceled (no_profile e) = refl
error_of-canceled (no_credentials e) = refl
error_of-canceled (no_sandbox group e) = refl

-- The status that belongs to how a run ends.
pub data Settles : Exit → RunStatus → Type 0 where
  with_all_done : Settles done RunStatus.complete
  without_fuel : Settles out_of_fuel RunStatus.complete
  by_cancellation :
      (r : Reason) → is_cancellation r ≡ true → Settles (stopped r) RunStatus.cancelled
  by_failure : (r : Reason) → is_cancellation r ≡ false → Settles (stopped r) RunStatus.failed

final_status-Settles :
    (t : Templates) (input : DagInput) (exit : Exit) → Settles exit (final_status t input exit)
final_status-Settles t input done = with_all_done
final_status-Settles t input out_of_fuel = without_fuel
final_status-Settles t input (stopped r) = elim (Bool-cases (is_cancellation r)) [
  | inl canceled ↦ rw (error_of-canceled r, canceled) (by_cancellation r canceled)
  | inr not_canceled ↦ rw (error_of-canceled r, not_canceled) (by_failure r not_canceled)
]

-- What a run has written when it ends, by the answer to the activity that marks it as running.
abbrev pub HasStatuses :
    String → Result String → Exit → List (String × RunStatus) → List (String × RunStatus) → Type 0
HasStatuses run (err e) exit before now = now ≡ (run, RunStatus.running) ∷ before
HasStatuses run (ok s) exit before now =
    (last : RunStatus) × Settles exit last × (now ≡ (run, last) ∷ (run, RunStatus.running) ∷ before)

statuses-HasStatuses :
    (t : Templates) (input : DagInput) (w : World) (r : Result String) (exit : Exit)
    (before now : List (String × RunStatus))
    → now ≡ statuses t input w r exit before
    → HasStatuses input.run_id r exit before now
statuses-HasStatuses t input w (err e) exit before now q = q
statuses-HasStatuses t input w (ok s) exit before now q =
    (final_status t input exit, final_status-Settles t input exit, q)

-- `DAGWorkflow` writes two statuses, both to the record of its run: `running` at the start, and at the
-- end `complete` if it stops without an error, `cancelled` if its error is a cancellation and `failed`
-- if it is any other. If marking the run as running fails, it writes no other.
pub dag_workflow-statuses :
    (t : Templates) (input : DagInput) (w : World) (h : History)
    → HasStatuses input.run_id
        (w.reply (update_run_status input.run_id RunStatus.running "" ∷ h))
        (dag_workflow t input w h).0
        (run_records h)
        (run_records (dag_workflow t input w h).1)
unfolding dag_workflow
dag_workflow-statuses t input w h =
    let start = update_run_status input.run_id RunStatus.running "" ∷ h in
    statuses-HasStatuses t input w (w.reply start) _ (run_records h) _
      (marked-statuses t input w (w.reply start) start (run_records h) refl)
