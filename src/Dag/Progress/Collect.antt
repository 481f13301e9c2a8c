-- ===== src/Dag/Progress/Collect.antt =====
-- What the provisioning and the collection of a round do to the state of the loop.
use fleetlift.Prelude.{
  ◌<◌, ◌≤◌, String, ◌≡◌, refl, ◌≢◌, inl, inr, true, false, Option, some, List, [], ◌∷◌, ◌++◌, has,
  length, All, arith, Bool-cases,
}
use fleetlift.Model.{StepOutput, StepDef}
use fleetlift.Engine.{History, World, Run, Result, ok, err}
use fleetlift.Dag.Data.{DagInput, Outputs, State}
use fleetlift.Dag.Exit.{Reason, deadlock}
use fleetlift.Dag.Ready.Laws.{length-remove-le, length-remove-lt, insert-All}
use fleetlift.Dag.Rounds.{
  collect_one, fails_run, report_failure, failure_message, collect, group_ready, needs_sandbox,
  provision_groups,
}
use fleetlift.Dag.Progress.Invariant.{collect_all}

abbrev pub Rows : Type 0
Rows = List (StepDef × StepOutput)

pub nil_of_length {ℓ} : {A : Type ℓ} (xs : List A) → length xs ≤ 0 → xs ≡ []
nil_of_length [] h = refl
nil_of_length (x ∷ xs) h = absurd (omega arith)

snoc-ne-nil {ℓ} : {A : Type ℓ} (xs : List A) (a : A) → (xs ++ a ∷ []) ≢ []
snoc-ne-nil [] a e = cc
snoc-ne-nil (x ∷ xs) a e = cc

module _ (input : DagInput) (w : World) where
  -- Without errors at the end, there were none before, no result fails the run, and the state is
  -- that of the plain collection.
  pub collect_well :
      (rs : Rows) (st : State) (errors : List String) (h : History)
      → (collect input rs st errors w h).0.1 ≡ []
      → (errors ≡ [])
        × All (λ p. fails_run input p.1 ≡ false) rs
        × ((collect input rs st errors w h).0.0 ≡ collect_all rs st)
  unfolding collect
  collect_well [] st errors h e = (e, tt, refl)
  collect_well ((step, r) ∷ rs) st errors h e = elim (Bool-cases (fails_run input r)) [
    | inl fails ↦
        let (st', h') = report_failure input step r (collect_one r st) w h in
        absurd (
          snoc-ne-nil errors (failure_message input r)
            (collect_well rs st' (errors ++ failure_message input r ∷ []) h'
              (rw (fails, collect) at e)).0)
    | inr passes ↦
        let (before, all, same) =
          collect_well rs (collect_one r st) errors h (rw (passes, collect) at e) in
        (before, (passes, all), rw passes same)
  ]

group_ready-fine :
    (input : DagInput) (w : World)
    (rest : List (String × String) → Run (Option Reason × List (String × String))) (step : StepDef)
    (sandboxes : List (String × String)) (r : Result String) (h : History)
    → ((sb : List (String × String)) → (rest sb w h).0.0 ≢ some deadlock)
    → (group_ready input rest step sandboxes r w h).0.0 ≢ some deadlock
group_ready-fine input w rest step sandboxes (err e) h fine = λ p. cc
group_ready-fine input w rest step sandboxes (ok id) h fine = fine _

-- What stops the provisioning of groups is no deadlock.
pub provision_groups-fine :
    (input : DagInput) (w : World) (steps : List StepDef) (sandboxes : List (String × String))
    (h : History)
    → (provision_groups input steps sandboxes w h).0.0 ≢ some deadlock
unfolding provision_groups
provision_groups-fine input w [] sandboxes h = cc
provision_groups-fine input w (step ∷ steps) sandboxes h =
    elim (Bool-cases (needs_sandbox input step sandboxes)) [
      | inl new ↦ rw new (
          group_ready-fine input w (provision_groups input steps) step sandboxes (w.reply _) _
            (λ sb. provision_groups-fine input w steps sb _))
      | inr old ↦ rw old (provision_groups-fine input w steps sandboxes h)
    ]

-- No output fails the run.
abbrev pub Passes : DagInput → Outputs → Type 0
Passes input = All (λ o. fails_run input o.1 ≡ false)

pub collect_all-Passes :
    (input : DagInput) (rs : Rows) (st : State)
    → All (λ p. fails_run input p.1 ≡ false) rs
    → Passes input st.outputs
    → Passes input (collect_all rs st).outputs
collect_all-Passes input [] st all h = h
collect_all-Passes input ((step, r) ∷ rs) st all h =
    collect_all-Passes input rs (collect_one r st) all.1
      (insert-All (λ o. fails_run input o.1 ≡ false) r.step_id r st.outputs all.0 h)

length-collect_all-le :
    (rs : Rows) (st : State) → length (collect_all rs st).pending ≤ length st.pending
length-collect_all-le [] st = omega arith
length-collect_all-le ((step, r) ∷ rs) st =
    omega
      (arith, length-collect_all-le rs (collect_one r st), length-remove-le r.step_id st.pending)

-- A round takes a pending step away.
pub length-collect_all-lt :
    (rs : Rows) (st : State)
    → 0 < length rs
    → All (λ p. (has p.0.id st.pending ≡ true) × (p.1.step_id ≡ p.0.id)) rs
    → length (collect_all rs st).pending < length st.pending
length-collect_all-lt [] st pos all = absurd (omega arith)
length-collect_all-lt ((step, r) ∷ rs) st pos all = omega (
  arith,
  length-collect_all-le rs (collect_one r st),
  length-remove-lt r.step_id st.pending (rw all.0.1 all.0.0),
)
