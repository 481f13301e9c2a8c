-- ===== src/Step/Recorded.antt =====
-- Every run of `StepWorkflow` that returns writes one final status, to the record of its step run.
use fleetlift.Prelude.{
  String, ◌≡◌, refl, ap, subst, ◌≢◌, true, false, List, ◌∷◌, arith, eq_iff, ◌==◌,
}
use fleetlift.Model.{StepStatus, StepResult}
use fleetlift.Engine.{History, World, Result, ok, err, StepInput}
use fleetlift.Step.{step_body, mark_failed, step_workflow}
use fleetlift.Step.Ends.{Outcome, waiting, returned}
use fleetlift.Step.Rounds.{Signal}
use fleetlift.Step.Trace.{records, round_trace, opening_trace, closing_trace}
use fleetlift.Step.Induct.{Rule, step_body_ind}
use fleetlift.Step.Closing.{
  finish, finalized_as, wrapped, finalize_step, open_pull_request, close_sandbox, close_step,
}

-- What the final statuses written are when the body of the workflow ends, from those before.
abbrev Written : String → List (String × StepStatus) → Outcome → List (String × StepStatus) → Type 0
Written id before waiting now = now ≡ before
Written id before (returned (ok output) f) now = (now ≡ (id, output.status) ∷ before) × (f ≡ true)
Written id before (returned (err e) true) now = (s : StepStatus) × (now ≡ (id, s) ∷ before)
Written id before (returned (err e) false) now = now ≡ before

finalized-Written :
    (id : String) (before : List (String × StepStatus)) (output : StepResult) (prefix : String)
    (r : Result String)
    → Written id before (finalized_as output (wrapped prefix r)) ((id, output.status) ∷ before)
finalized-Written id before output prefix (ok s) = (refl, refl)
finalized-Written id before output prefix (err e) = (output.status, refl)

module _ (input : StepInput) (named : (input.step_run_id == "") ≡ false) (w : World) where
  finish-Written :
      (output : StepResult) (h : History)
      → Written input.step_run_id
          (records h)
          (finish input output w h).0
          (records (finish input output w h).1)
  unfolding finalize_step
  finish-Written output h =
      rw named (finalized-Written input.step_run_id (records h) output _ (w.reply _))

  close-Written :
      (sandbox : String) (output : StepResult) (h : History)
      → Written input.step_run_id
          (records h)
          (close_step input sandbox output w h).0
          (records (close_step input sandbox output w h).1)
  unfolding close_step
  close-Written sandbox output h =
      let pulled = open_pull_request input sandbox output w h in
      let closed = close_sandbox input sandbox w pulled.1 in
      subst
        (λ b.
          Written input.step_run_id b (finish input pulled.0 w closed.1).0
            (records (finish input pulled.0 w closed.1).1))
        (closing_trace input w h sandbox output).0 (finish-Written pulled.0 closed.1)

  Written-rule : Rule input w (λ h o h'. Written input.step_run_id (records h) o (records h'))
  Written-rule = record {
    opens = λ h h' o.
        subst (λ b. Written input.step_run_id b o (records h')) (opening_trace input w h "").0;
    prepares = λ s h h' o.
        subst (λ b. Written input.step_run_id b o (records h')) (opening_trace input w h s).2;
    rounds = λ s dirs c h h' o.
        subst (λ b. Written input.step_run_id b o (records h')) (round_trace input w h s dirs c).0;
    closes = λ s out h. close-Written s out h;
    finishes = λ out h. finish-Written out h;
    errors = λ e h. refl;
    waits = λ h. refl;
  }

-- What `mark_failed` adds: a run that fails before its record is finalised is recorded as failed.
abbrev pub Recorded :
    String → List (String × StepStatus) → Outcome → List (String × StepStatus) → Type 0
Recorded id before waiting now = now ≡ before
Recorded id before (returned (ok output) f) now = now ≡ (id, output.status) ∷ before
Recorded id before (returned (err e) true) now = (s : StepStatus) × (now ≡ (id, s) ∷ before)
Recorded id before (returned (err e) false) now = now ≡ (id, StepStatus.failed) ∷ before

mark_failed-Recorded :
    (input : StepInput)
    → (input.step_run_id == "") ≡ false
    → (w : World) (before : List (String × StepStatus)) (h : History) (outcome : Outcome)
    → Written input.step_run_id before outcome (records h)
    → Recorded input.step_run_id before
        (mark_failed input outcome w h).0
        (records (mark_failed input outcome w h).1)
unfolding mark_failed
mark_failed-Recorded input named w before h waiting e = e
mark_failed-Recorded input named w before h (returned (ok output) f) e = e.0
mark_failed-Recorded input named w before h (returned (err e) true) (s, e') = (s, e')
mark_failed-Recorded input named w before h (returned (err e) false) e' =
    rw named (ap (λ b. (input.step_run_id, StepStatus.failed) ∷ b) e')

-- A run of `StepWorkflow` with a step run writes by CompleteStepRun one final status when it returns,
-- to that step run, and none while it waits for input: the status of the output that it returns,
-- `failed` if it returns an error before the record was to be finalised, and one status if
-- finalising fails. (The statuses in between, which UpdateStepStatus writes, do not count.)
pub step_workflow-Recorded :
    (input : StepInput)
    → input.step_run_id ≢ ""
    → (signals : List Signal) (w : World) (h : History)
    → Recorded input.step_run_id
        (records h)
        (step_workflow input signals w h).0
        (records (step_workflow input signals w h).1)
unfolding step_workflow
step_workflow-Recorded input named signals w h =
    let unnamed : (input.step_run_id == "") ≡ false = ground (arith, eq_iff input.step_run_id "") in
    mark_failed-Recorded input unnamed w (records h) (step_body input signals w h).1
      (step_body input signals w h).0 (step_body_ind (Written-rule input unnamed w) signals h)
