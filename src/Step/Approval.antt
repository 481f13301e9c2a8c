-- ===== src/Step/Approval.antt =====
-- The approval gate: what a step under the policy `always` does before the operator approves it.
use fleetlift.Prelude.{String, ◌≡◌, refl, ◌∙◌, Bool, true, false, List, [], ◌∷◌, arith, eq_iff}
use fleetlift.Model.{StepResult, is_awaiting}
use fleetlift.Engine.{Activity, History, World, Result, ok, err, wrap, StepInput, Run}
use fleetlift.Step.{
  rejection, settle, on_signal, attempts, opened, step_body, mark_failed, step_workflow,
}
use fleetlift.Step.Ends.{Outcome, waiting, returned, or_return}
use fleetlift.Engine.Monad.{pure}
use fleetlift.Step.Resume.{Turn, leave, pause, fail, error, block}
use fleetlift.Step.Trace.{pulls}
use fleetlift.Step.Rounds.{
  Signal, approve, reject, steer, cancel, open_sandbox, preflight, verify, execute, executed, round,
}
use fleetlift.Step.Closing.{finish, finalize_step}

-- The sandboxes that were cleaned up, the latest first.
abbrev pub cleaned : History → List String
cleaned [] = []
cleaned (Activity.cleanup_sandbox sandbox ∷ h) = sandbox ∷ cleaned h
cleaned (a ∷ h) = cleaned h

-- The first signal that does not steer is `approve`.
abbrev pub approved : List Signal → Bool
approved [] = false
approved (approve ∷ signals) = true
approved (steer prompt ∷ signals) = approved signals
approved (signal ∷ signals) = false

-- The agent never asks for human input by itself.
abbrev pub NeverAsks : World → Type 0
NeverAsks w =
    (h : History) (out : StepResult) → w.result h ≡ ok out → is_awaiting out.status ≡ false

-- What the gate holds back: pull requests and the end of the sandbox.
record Held (h h' : History) : Type 0 where
  no_pull : pulls h' ≡ pulls h
  no_clean_up : cleaned h' ≡ cleaned h

Held-refl : {h : History} → Held h h
Held-refl = record { no_pull = refl; no_clean_up = refl }

Held-trans : {h h' h'' : History} → Held h h' → Held h' h'' → Held h h''
Held-trans a b = record {
  no_pull = b.no_pull ∙ a.no_pull;
  no_clean_up = b.no_clean_up ∙ a.no_clean_up;
}

abbrev IsHeld : Turn → Type 0
IsHeld (leave out) = ⊥
IsHeld _ = Unit

module _ (input : StepInput) (always : input.step_def.approval_policy ≡ "always") (w : World) where
  verify-Held :
      (s : String) (out : StepResult) (h : History)
      → IsHeld (verify input s out w h).0 × Held h (verify input s out w h).1
  unfolding verify
  verify-Held s out h = ground (arith, eq_iff input.step_def.approval_policy "always")

  executed-Held :
      (s : String) (dirs : List String) (h : History) (r : Result StepResult)
      → ((out : StepResult) → r ≡ ok out → is_awaiting out.status ≡ false)
      → IsHeld (executed input s dirs r w h).0 × Held h (executed input s dirs r w h).1
  executed-Held s dirs h (err e) asks = (tt, Held-refl)
  executed-Held s dirs h (ok out) asks = rw (asks out refl) (verify-Held s out h)

  finish-Held : (out : StepResult) (h : History) → Held h (finish input out w h).1
  unfolding finalize_step
  finish-Held out h = ground arith

  module _ (asks : NeverAsks w) where
    round-Held :
        (s : String) (dirs : List String) (c : String) (h : History)
        → IsHeld (round input s dirs c w h).0 × Held h (round input s dirs c w h).1
    unfolding round
    round-Held s dirs c h =
        let started = execute input s dirs c ∷ h in
        let (stays, held) = executed-Held s dirs started (w.result started) (asks started) in
        (stays, record { no_pull = held.no_pull; no_clean_up = held.no_clean_up })

    settle-Held :
        (s : String) (wait : StepResult → Run Outcome) (h : History)
        → ((out : StepResult) → Held h (wait out w h).1)
        → (turn : Turn) → IsHeld turn
        → Held h (settle input s wait turn w h).1
    settle-Held s wait h waits (leave out) stays = absurd stays
    settle-Held s wait h waits (pause out) stays = waits out
    settle-Held s wait h waits (fail out) stays = finish-Held out h
    settle-Held s wait h waits (error e) stays = Held-refl
    settle-Held s wait h waits block stays = Held-refl

    signal-Held :
        (s c : String) (out : StepResult) (signal : Signal) (signals : List Signal)
        (again : String → Run Outcome) (h : History)
        → approved (signal ∷ signals) ≡ false
        → ((c' : String) → approved signals ≡ false → Held h (again c' w h).1)
        → Held h (on_signal input s c out again signal w h).1
    signal-Held s c out approve signals again h closed more = cc
    signal-Held s c out reject signals again h closed more = finish-Held (rejection input) h
    signal-Held s c out cancel signals again h closed more = finish-Held (rejection input) h
    signal-Held s c out (steer prompt) signals again h closed more = more _ closed

    attempts-Held :
        (s : String) (dirs : List String) (signals : List Signal) (c : String) (h : History)
        → approved signals ≡ false
        → Held h (attempts input s dirs signals c w h).1
    unfolding attempts
    attempts-Held s dirs [] c h closed =
        let (turn, h') = round input s dirs c w h in
        Held-trans (round-Held s dirs c h).1
          (settle-Held s (λ out. pure waiting) h' (λ out. Held-refl) turn (round-Held s dirs c h).0)
    attempts-Held s dirs (signal ∷ signals) c h closed =
        let (turn, h') = round input s dirs c w h in
        Held-trans (round-Held s dirs c h).1 (
          settle-Held s (λ out. on_signal input s c out (attempts input s dirs signals) signal) h'
            (λ out.
              signal-Held s c out signal signals (attempts input s dirs signals) h' closed
                (λ c' later. attempts-Held s dirs signals c' h' later))
            turn (round-Held s dirs c h).0)

    opening-Held :
        (s : String) (h : History)
        → Held h (open_sandbox input w h).1 × Held h (preflight input s w h).1
    unfolding open_sandbox preflight
    opening-Held s h = ground arith

    prepared-Held :
        (s : String) (signals : List Signal) (h : History) (r : Result (List String))
        → approved signals ≡ false
        → Held h (or_return (wrap "pre-flight") r (λ dirs. attempts input s dirs signals "") w h).1
    prepared-Held s signals h (ok dirs) closed = attempts-Held s dirs signals "" h closed
    prepared-Held s signals h (err e) closed = Held-refl

    opened-Held :
        (signals : List Signal) (h : History) (r : Result String)
        → approved signals ≡ false
        → Held h (opened input signals r w h).1
    opened-Held signals h (ok s) closed =
        let (d, h') = preflight input s w h in
        Held-trans (opening-Held s h).1 (prepared-Held s signals h' d closed)
    opened-Held signals h (err e) closed = Held-refl

    mark-Held : (outcome : Outcome) (h : History) → Held h (mark_failed input outcome w h).1
    unfolding mark_failed
    mark-Held waiting h = Held-refl
    mark-Held (returned (ok out) f) h = Held-refl
    mark-Held (returned (err e) true) h = Held-refl
    mark-Held (returned (err e) false) h = ground arith

    step_workflow-Held :
        (signals : List Signal) (h : History)
        → approved signals ≡ false
        → Held h (step_workflow input signals w h).1
    unfolding step_workflow step_body
    step_workflow-Held signals h closed =
        let (r, h') = open_sandbox input w h in
        let (outcome, h'') = opened input signals r w h' in
        Held-trans (Held-trans (opening-Held "" h).0 (opened-Held signals h' r closed))
          (mark-Held outcome h'')

-- A step under the policy `always` whose agent does not ask for input by itself asks for no pull
-- request unless the operator approves it: before the operator's first signal that is not `steer`,
-- and after a rejection or a cancellation.
pub step_workflow-no_pull :
    (input : StepInput)
    → input.step_def.approval_policy ≡ "always"
    → (w : World) → NeverAsks w
    → (signals : List Signal) → approved signals ≡ false
    → (h : History) → pulls (step_workflow input signals w h).1 ≡ pulls h
step_workflow-no_pull input always w asks signals closed h =
    (step_workflow-Held input always w asks signals h closed).no_pull

-- A step that the operator rejects or cancels returns without cleaning up any sandbox, its own
-- included, where the policy is `always` and the agent does not ask for input by itself.
pub step_workflow-no_clean_up :
    (input : StepInput)
    → input.step_def.approval_policy ≡ "always"
    → (w : World) → NeverAsks w
    → (signals : List Signal) → approved signals ≡ false
    → (h : History) → cleaned (step_workflow input signals w h).1 ≡ cleaned h
step_workflow-no_clean_up input always w asks signals closed h =
    (step_workflow-Held input always w asks signals h closed).no_clean_up
