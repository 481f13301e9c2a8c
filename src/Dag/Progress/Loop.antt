-- ===== src/Dag/Progress/Loop.antt =====
-- How the loop ends, on steps that are well formed.
use fleetlift.Prelude.{
  ℕ, zero, suc, ◌<◌, ◌≤◌, String, ◌≡◌, refl, ap, ◌≢◌, inl, inr, true, Option, none, some, List, [],
  ◌∷◌, In, has, length, All, All-map, arith, Bool-cases,
}
use fleetlift.Model.{StepDef, AgentProfileBody, step_ids}
use fleetlift.Engine.{History, World, Run}
use fleetlift.Engine.Monad.{◌>>=◌}
use fleetlift.Dag.Data.{DagInput, Templates, State}
use fleetlift.Dag.Exit.{Exit, done, out_of_fuel, stopped, Reason, deadlock}
use fleetlift.Dag.Ready.{find_ready}
use fleetlift.Dag.Ready.Laws.{find_ready-All}
use fleetlift.Dag.Steps.{run_steps}
use fleetlift.Dag.Rounds.{
  collect, after_collect, while_pending, unless_canceled, provision_groups, provisioned, run_round,
  ready_round, one_round, dag_loop,
}
use fleetlift.Dag.Progress.Results.{AnswersOwn, run_steps-All, length-run_steps}
use fleetlift.Dag.Progress.Invariant.{Inv, find_ready-ne-nil, entries-has, collect_all-Inv}
use fleetlift.Dag.Progress.Collect.{
  nil_of_length, collect_well, provision_groups-fine, Passes, collect_all-Passes,
  length-collect_all-lt,
}

module _ (t : Templates) (input : DagInput) (profile : Option AgentProfileBody) (w : World)
    (own : AnswersOwn w) (rank : String → ℕ) where
  abbrev ids : List String
  ids = step_ids input.workflow_def.steps

  -- How the loop may end.
  abbrev pub Ends : Exit × State → Type 0
  Ends (done, st) = ((v : String) → In v ids → has v st.outputs ≡ true) × Passes input st.outputs
  Ends (out_of_fuel, st) = ⊥
  Ends (stopped reason, st) = reason ≢ deadlock

  unless_canceled-Ends :
      (st : State) (next : Run (Exit × State)) (h : History)
      → Ends (next w h).0
      → Ends (unless_canceled st next w h).0
  unless_canceled-Ends st next h e = elim (Bool-cases (w.canceled h)) [
    | inl yes' ↦ rw yes' (λ p. cc)
    | inr no' ↦ rw no' e
  ]

  abbrev Again : (State → Run (Exit × State)) → ℕ → Type 0
  Again again n =
      (st : State) (h : History)
      → length st.pending < n
      → Inv ids rank st
      → Passes input st.outputs
      → Ends (again st w h).0

  after_collect-Ends :
      (again : State → Run (Exit × State)) (collected : State × List String) (h : History)
      → (collected.1 ≡ [] → Ends (again collected.0 w h).0)
      → Ends (after_collect again collected w h).0
  after_collect-Ends again (st, []) h e = e refl
  after_collect-Ends again (st, m ∷ ms) h e = λ p. cc

  run_round-Ends :
      (again : State → Run (Exit × State)) (ready : List StepDef) (st : State) (h : History)
      → Again again (length st.pending)
      → 0 < length ready
      → All (λ s. has s.id st.pending ≡ true) ready
      → Inv ids rank st
      → Passes input st.outputs
      → Ends (run_round t input profile again ready st w h).0
  unfolding run_round
  run_round-Ends again ready st h next pos found inv passes =
      let (rows, h') = run_steps t input st.sandboxes st.outputs profile ready w h in
      let collected = collect input rows st [] in
      unless_canceled-Ends st (collected >>= after_collect again) h' (
        after_collect-Ends again (collected w h').0 (collected w h').1 λ e.
          let (_, all, same) = collect_well input w rows st [] h' e in
          next (collected w h').0.0 (collected w h').1
            (rw same (
              length-collect_all-lt rows st
                (omega
                  (arith, length-run_steps t input st.sandboxes st.outputs w own profile ready h))
                (run_steps-All t input st.sandboxes st.outputs w own
                  (λ s. has s.id st.pending ≡ true) profile ready h found)))
            (rw same (collect_all-Inv ids rank rows st inv))
            (rw same (collect_all-Passes input rows st all passes)))

  provisioned-Ends :
      (again : State → Run (Exit × State)) (ready : List StepDef) (st : State)
      (p : Option Reason × List (String × String)) (h : History)
      → p.0 ≢ some deadlock
      → Again again (length st.pending)
      → 0 < length ready
      → All (λ s. has s.id st.pending ≡ true) ready
      → Inv ids rank st
      → Passes input st.outputs
      → Ends (provisioned t input profile again ready st p w h).0
  provisioned-Ends again ready st (some reason, sandboxes) h fine next pos found inv passes =
      λ e. fine (ap some e)
  provisioned-Ends again ready st (none, sandboxes) h fine next pos found inv passes =
      run_round-Ends again ready (record st { sandboxes = sandboxes }) h next pos found
        (record { entries = inv.entries; covered = inv.covered }) passes

  ready_round-Ends :
      (again : State → Run (Exit × State)) (st : State) (ready : List StepDef) (h : History)
      → ready ≢ []
      → Again again (length st.pending)
      → All (λ s. has s.id st.pending ≡ true) ready
      → Inv ids rank st
      → Passes input st.outputs
      → Ends (ready_round t input profile again st ready w h).0
  ready_round-Ends again st [] h some_ready next found inv passes = absurd (some_ready refl)
  ready_round-Ends again st (s ∷ ss) h some_ready next found inv passes =
      let (p, h') = provision_groups input (s ∷ ss) st.sandboxes w h in
      provisioned-Ends again (s ∷ ss) st p h'
        (provision_groups-fine input w (s ∷ ss) st.sandboxes h) next (omega arith) found inv passes

  while_pending-Ends :
      (m : List (String × StepDef)) (st : State) (next : Run (Exit × State)) (h : History)
      → (m ≡ [] → Ends (done, st))
      → (m ≢ [] → Ends (next w h).0)
      → Ends (while_pending m st next w h).0
  while_pending-Ends [] st next h e f = e refl
  while_pending-Ends (p ∷ ps) st next h e f = f (λ q. cc)

  all_covered :
      (st : State) → Inv ids rank st → Passes input st.outputs → st.pending ≡ [] → Ends (done, st)
  all_covered st inv passes e = (
    λ v known. elim (inv.covered v known) [ inl there ↦ there | inr waits ↦ cc (rw e at waits) ],
    passes,
  )

  pub dag_loop-Ends :
      (fuel : ℕ) (st : State) (h : History)
      → length st.pending ≤ fuel
      → Inv ids rank st
      → Passes input st.outputs
      → Ends (dag_loop t input profile fuel st w h).0
  unfolding dag_loop
  dag_loop-Ends zero st h enough inv passes =
      while_pending-Ends st.pending st _ h (all_covered st inv passes)
        (λ some_pending. some_pending (nil_of_length st.pending (omega arith)))
  dag_loop-Ends (suc fuel) st h enough inv passes =
      while_pending-Ends st.pending st
        (one_round t input profile (dag_loop t input profile fuel) st) h (all_covered st inv passes)
        λ some_pending.
          unless_canceled-Ends st
            (ready_round t input profile (dag_loop t input profile fuel) st
              (find_ready st.pending st.outputs))
            h
            (ready_round-Ends (dag_loop t input profile fuel) st (find_ready st.pending st.outputs)
              h (find_ready-ne-nil ids rank st inv some_pending)
              (λ st' h' less inv' passes'. dag_loop-Ends fuel st' h' (omega arith) inv' passes')
              (All-map (find_ready st.pending st.outputs) (λ s p. p.0)
                (find_ready-All (λ s. has s.id st.pending ≡ true) st.pending st.outputs
                  (entries-has ids rank st.pending inv.entries)))
              inv passes)
