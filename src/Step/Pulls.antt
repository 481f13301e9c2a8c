-- ===== src/Step/Pulls.antt =====
-- Pull requests: one at most, and only as the last thing before the record is finalised.
use fleetlift.Prelude.{
  ℕ, ◌+◌, String, ◌≡◌, refl, subst, ◌⊎◌, inl, Option, none, some, eq_iff, ◌&&◌, ◌==◌, Bool, true,
  false, List, arith,
}
use fleetlift.Model.{StepResult, StepDef, PrDef}
use fleetlift.Engine.{History, World, Result, ok, err, StepInput}
use fleetlift.Step.{step_body, mark_failed, step_workflow}
use fleetlift.Step.Ends.{Outcome, waiting, returned}
use fleetlift.Step.Trace.{pulls, round_trace, opening_trace, closing_trace}
use fleetlift.Step.Induct.{Rule, step_body_ind}
use fleetlift.Step.Rounds.{Signal}
use fleetlift.Step.Closing.{
  finalized_as, finalize_step, finish, wants_pull_request, open_pull_request, close_sandbox,
  close_step,
}

-- The workflow returned, and its record was to be finalised.
abbrev pub is_final : Outcome → Bool
is_final (returned r f) = f
is_final waiting = false

-- The step is in mode `transform` and configures a pull request.
abbrev pub Configures : StepDef → Type 0
Configures step = (step.mode ≡ "transform") × (pr : PrDef) × (step.pull_request ≡ some pr)

has_pull_request :
    (b : Bool) (o : Option PrDef)
    → (b && elim o [ none ↦ false | some p ↦ true ]) ≡ true
    → (b ≡ true) × (pr : PrDef) × (o ≡ some pr)
has_pull_request true (some p) e = (refl, p, refl)
has_pull_request true none e = cc
has_pull_request false o e = cc

wants-Configures : (input : StepInput) → wants_pull_request input ≡ true → Configures input.step_def
wants-Configures input e =
    let (transforms, pr, set) =
      has_pull_request (input.step_def.mode == "transform") input.step_def.pull_request e in
    ((eq_iff input.step_def.mode "transform").0 transforms, pr, set)

-- No pull request was asked for, or one by a final run whose step configures it.
abbrev pub Pulled : StepInput → ℕ → Outcome → ℕ → Type 0
Pulled input before o now =
    (now ≡ before) ⊎ ((now ≡ 1 + before) × Configures input.step_def × (is_final o ≡ true))

module _ (input : StepInput) (w : World) where
  pulls-finish : (out : StepResult) (h : History) → pulls (finish input out w h).1 ≡ pulls h
  unfolding finalize_step
  pulls-finish out h = ground arith

  finalized_final : (out : StepResult) (r : Result String) → is_final (finalized_as out r) ≡ true
  finalized_final out (ok s) = refl
  finalized_final out (err e) = refl

  close_pulls :
      (s : String) (out : StepResult) (h : History)
      → Pulled input (pulls h) (close_step input s out w h).0 (pulls (close_step input s out w h).1)
  unfolding close_step
  close_pulls s out h =
      let pulled = open_pull_request input s out w h in
      let closed = close_sandbox input s w pulled.1 in
      ground (
        arith,
        closing_trace input w h s out,
        wants-Configures input,
        pulls-finish pulled.0 closed.1,
        finalized_final pulled.0 (finalize_step input.step_run_id pulled.0 w closed.1).0,
      )

  Pulled-rule : Rule input w (λ h o h'. Pulled input (pulls h) o (pulls h'))
  Pulled-rule = record {
    opens = λ h h' o. subst (λ b. Pulled input b o (pulls h')) (opening_trace input w h "").1;
    prepares = λ s h h' o. subst (λ b. Pulled input b o (pulls h')) (opening_trace input w h s).3;
    rounds = λ s dirs c h h' o.
        subst (λ b. Pulled input b o (pulls h')) (round_trace input w h s dirs c).1;
    closes = λ s out h. close_pulls s out h;
    finishes = λ out h. inl (pulls-finish out h);
    errors = λ e h. inl refl;
    waits = λ h. inl refl;
  }

  mark_failed-pulls :
      (before : ℕ) (o : Outcome) (h : History)
      → Pulled input before o (pulls h)
      → Pulled input before (mark_failed input o w h).0 (pulls (mark_failed input o w h).1)
  unfolding mark_failed
  mark_failed-pulls before waiting h p = p
  mark_failed-pulls before (returned (ok out) f) h p = p
  mark_failed-pulls before (returned (err e) true) h p = p
  mark_failed-pulls before (returned (err e) false) h p = ground arith

-- A run of `StepWorkflow` asks for one pull request at most, and for one only if the step is in
-- mode `transform` and configures it, and the run goes on to finalise its record.
pub step_workflow-Pulled :
    (input : StepInput) (signals : List Signal) (w : World) (h : History)
    → Pulled input
        (pulls h)
        (step_workflow input signals w h).0
        (pulls (step_workflow input signals w h).1)
unfolding step_workflow
step_workflow-Pulled input signals w h =
    let (o, h') = step_body input signals w h in
    mark_failed-pulls input w (pulls h) o h' (step_body_ind (Pulled-rule input w) signals h)
