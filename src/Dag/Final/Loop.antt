-- ===== src/Dag/Final/Loop.antt =====
-- No round of the loop writes the status of the run.
use fleetlift.Prelude.{
  ℕ, zero, suc, String, ◌≡◌, refl, ◌∙◌, Option, none, some, List, [], ◌∷◌, ◌++◌, Bool-cases, inl,
  inr,
}
use fleetlift.Model.{StepOutput, StepDef, AgentProfileBody}
use fleetlift.Engine.{History, World, Run, Result, ok, err}
use fleetlift.Dag.Data.{DagInput, Templates, State}
use fleetlift.Dag.Exit.{Exit, Reason}
use fleetlift.Dag.Ready.{find_ready}
use fleetlift.Dag.Steps.{run_steps}
use fleetlift.Dag.Rounds.{
  collect_one, after_collect, while_pending, unless_canceled, group_ready, needs_sandbox,
  provision_groups, fails_run, failure_message, collect, run_round, provisioned, ready_round,
  dag_loop,
}
use fleetlift.Dag.Final.Steps.{run_records, run_steps-quiet}

module _ (t : Templates) (input : DagInput) (profile : Option AgentProfileBody) (w : World) where
  -- A run that adds no status.
  abbrev Quiet : {A : Type 0} → Run A → Type 0
  Quiet m = (h : History) → run_records (m w h).1 ≡ run_records h

  group_ready-Quiet :
      (rest : List (String × String) → Run (Option Reason × List (String × String)))
      (step : StepDef) (sandboxes : List (String × String)) (r : Result String)
      → ((sb : List (String × String)) → Quiet (rest sb))
      → Quiet (group_ready input rest step sandboxes r)
  group_ready-Quiet rest step sandboxes (ok id) q h = q _ h
  group_ready-Quiet rest step sandboxes (err e) q h = refl

  provision_groups-Quiet :
      (steps : List StepDef) (sandboxes : List (String × String))
      → Quiet (provision_groups input steps sandboxes)
  unfolding provision_groups
  provision_groups-Quiet [] sandboxes h = refl
  provision_groups-Quiet (step ∷ steps) sandboxes h =
      elim (Bool-cases (needs_sandbox input step sandboxes)) [
        | inl new ↦ rw new (
            group_ready-Quiet (provision_groups input steps) step sandboxes (w.reply _)
              (provision_groups-Quiet steps) _)
        | inr old ↦ rw old (provision_groups-Quiet steps sandboxes h)
      ]

  collect-Quiet :
      (rs : List (StepDef × StepOutput)) (st : State) (errors : List String)
      → Quiet (collect input rs st errors)
  unfolding collect
  collect-Quiet [] st errors h = refl
  collect-Quiet ((step, r) ∷ rs) st errors h = elim (Bool-cases (fails_run input r)) [
    | inl fails ↦ rw fails (collect-Quiet rs _ (errors ++ failure_message input r ∷ []) _)
    | inr passes ↦ rw passes (collect-Quiet rs (collect_one r st) errors h)
  ]

  after_collect-Quiet :
      (again : State → Run (Exit × State)) (collected : State × List String)
      → ((st : State) → Quiet (again st))
      → Quiet (after_collect again collected)
  after_collect-Quiet again (st, []) q h = q st h
  after_collect-Quiet again (st, e ∷ es) q h = refl

  unless_canceled-Quiet :
      (st : State) (next : Run (Exit × State)) → Quiet next → Quiet (unless_canceled st next)
  unless_canceled-Quiet st next q h = elim (Bool-cases (w.canceled h)) [
    | inl gone ↦ rw gone refl
    | inr there ↦ rw there (q h)
  ]

  run_round-Quiet :
      (again : State → Run (Exit × State)) (ready : List StepDef) (st : State)
      → ((st' : State) → Quiet (again st'))
      → Quiet (run_round t input profile again ready st)
  unfolding run_round
  run_round-Quiet again ready st q h =
      let rows = (run_steps t input st.sandboxes st.outputs profile ready w h).0 in
      unless_canceled-Quiet st _
        (λ k.
          let (collected, k') = collect input rows st [] w k in
          after_collect-Quiet again collected q k' ∙ collect-Quiet rows st [] k)
        _
      ∙ run_steps-quiet t input st.sandboxes st.outputs w profile ready h

  provisioned-Quiet :
      (again : State → Run (Exit × State)) (ready : List StepDef) (st : State)
      (p : Option Reason × List (String × String))
      → ((st' : State) → Quiet (again st'))
      → Quiet (provisioned t input profile again ready st p)
  provisioned-Quiet again ready st (some e, sandboxes) q h = refl
  provisioned-Quiet again ready st (none, sandboxes) q h = run_round-Quiet again ready _ q h

  ready_round-Quiet :
      (again : State → Run (Exit × State)) (st : State) (ready : List StepDef)
      → ((st' : State) → Quiet (again st'))
      → Quiet (ready_round t input profile again st ready)
  ready_round-Quiet again st [] q h = refl
  ready_round-Quiet again st (s ∷ ss) q h =
      let (p, h') = provision_groups input (s ∷ ss) st.sandboxes w h in
      provisioned-Quiet again (s ∷ ss) st p q h' ∙ provision_groups-Quiet (s ∷ ss) st.sandboxes h

  while_pending-Quiet :
      (m : List (String × StepDef)) (st : State) (next : Run (Exit × State))
      → Quiet next
      → Quiet (while_pending m st next)
  while_pending-Quiet [] st next q h = refl
  while_pending-Quiet (p ∷ ps) st next q h = q h

  pub dag_loop-Quiet : (fuel : ℕ) (st : State) → Quiet (dag_loop t input profile fuel st)
  unfolding dag_loop
  dag_loop-Quiet zero st h = while_pending-Quiet st.pending st _ (λ k. refl) h
  dag_loop-Quiet (suc fuel) st h =
      while_pending-Quiet st.pending st _
        (unless_canceled-Quiet st _ (
          ready_round-Quiet (dag_loop t input profile fuel) st (find_ready st.pending st.outputs)
            (dag_loop-Quiet fuel)))
        h
