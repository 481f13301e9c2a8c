-- ===== src/Step/Unattended.antt =====
-- internal/workflow/step.go: a step whose approval policy never makes it pause waits for no signal.
use fleetlift.Prelude.{
  String, ◌≡◌, refl, ◌≢◌, Bool, true, false, List, [], ◌∷◌, Option-cases, inl, inr,
}
use fleetlift.Model.{StepResult, StepDef, is_awaiting}
use fleetlift.Engine.{History, World, Result, ok, err, wrap, Run, StepInput}
use fleetlift.Step.{settle, attempts, opened, step_body, mark_failed, step_workflow}
use fleetlift.Step.Ends.{Outcome, waiting, or_return}
use fleetlift.Step.Resume.{Turn, leave, pause, fail, error, block}
use fleetlift.Step.Rounds.{
  Signal, should_pause, open_sandbox, preflight, ask_approval, verified, verify, execute, executed,
  round,
}
use fleetlift.Step.Approval.{NeverAsks}
use fleetlift.Step.Ending.{is_waiting, finish_ends, close_ends, mark_ends}

-- The policy of the step does not ask for the operator's approval, whatever its output.
abbrev pub NeverPauses : StepDef → Type 0
NeverPauses step = (output : StepResult) → should_pause step output ≡ false

-- A turn that awaits neither a signal nor an answer.
abbrev goes_on : Turn → Bool
goes_on (pause out) = false
goes_on block = false
goes_on turn = true

module _ (input : StepInput) (calm : NeverPauses input.step_def) (w : World)
    (quiet : NeverAsks w) where
  goes_on-ask_approval :
      (out : StepResult) (h : History) → goes_on (ask_approval input out w h).0 ≡ true
  unfolding ask_approval
  goes_on-ask_approval out h = rw (calm out) refl

  goes_on-verified :
      (out : StepResult) (r : Result String) (h : History)
      → goes_on (verified input out r w h).0 ≡ true
  goes_on-verified out (ok s) h = goes_on-ask_approval out h
  goes_on-verified out (err e) h = refl

  goes_on-verify :
      (s : String) (out : StepResult) (h : History) → goes_on (verify input s out w h).0 ≡ true
  unfolding verify
  goes_on-verify s out h = elim (Option-cases input.resolved_opts.verifiers) [
    | inl unset ↦ rw unset (goes_on-ask_approval out h)
    | inr (v, set) ↦ rw set (goes_on-verified out (w.reply _) _)
  ]

  goes_on-executed :
      (s : String) (dirs : List String) (r : Result StepResult) (h : History)
      → ((out : StepResult) → r ≡ ok out → is_awaiting out.status ≡ false)
      → goes_on (executed input s dirs r w h).0 ≡ true
  goes_on-executed s dirs (err e) h all = refl
  goes_on-executed s dirs (ok out) h all = rw (all out refl) (goes_on-verify s out h)

  goes_on-round :
      (s : String) (dirs : List String) (c : String) (h : History)
      → goes_on (round input s dirs c w h).0 ≡ true
  unfolding round
  goes_on-round s dirs c h =
      let started = execute input s dirs c ∷ h in
      goes_on-executed s dirs (w.result started) started (quiet started)

  settle_returns :
      (s : String) (wait : StepResult → Run Outcome) (turn : Turn) (h : History)
      → goes_on turn ≡ true
      → is_waiting (settle input s wait turn w h).0 ≡ false
  settle_returns s wait (leave out) h e = close_ends input w s out h
  settle_returns s wait (pause out) h e = cc
  settle_returns s wait (fail out) h e = finish_ends input w out h
  settle_returns s wait (error e') h e = refl
  settle_returns s wait block h e = cc

  attempts_returns :
      (s : String) (dirs : List String) (signals : List Signal) (h : History)
      → is_waiting (attempts input s dirs signals "" w h).0 ≡ false
  unfolding attempts
  attempts_returns s dirs [] h = settle_returns s _ _ _ (goes_on-round s dirs "" h)
  attempts_returns s dirs (signal ∷ signals) h = settle_returns s _ _ _ (goes_on-round s dirs "" h)

  prepared_returns :
      (s : String) (signals : List Signal) (h : History) (r : Result (List String))
      → is_waiting
          (or_return (wrap "pre-flight") r (λ dirs. attempts input s dirs signals "") w h).0
        ≡ false
  prepared_returns s signals h (ok dirs) = attempts_returns s dirs signals h
  prepared_returns s signals h (err e) = refl

  opened_returns :
      (signals : List Signal) (h : History) (r : Result String)
      → is_waiting (opened input signals r w h).0 ≡ false
  opened_returns signals h (ok s) =
      prepared_returns s signals (preflight input s w h).1 (preflight input s w h).0
  opened_returns signals h (err e) = refl

not_waiting : (o : Outcome) → is_waiting o ≡ false → o ≢ waiting
not_waiting o e is_wait = cc (rw is_wait at e)

-- Whatever the operator signals, or if he does not, the workflow waits for nothing, where no agent
-- asks for human input.
abbrev pub NeverWaits : StepInput → Type 0
NeverWaits input =
    (w : World)
    → NeverAsks w
    → (signals : List Signal) (h : History) → (step_workflow input signals w h).0 ≢ waiting

pub step_workflow-NeverWaits : (input : StepInput) → NeverPauses input.step_def → NeverWaits input
unfolding step_workflow step_body
step_workflow-NeverWaits input calm w quiet signals h =
    let (r, h') = open_sandbox input w h in
    let (o, h'') = opened input signals r w h' in
    not_waiting (mark_failed input o w h'').0
      (mark_ends input w o h'' (opened_returns input calm w quiet signals h' r))
