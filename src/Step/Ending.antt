-- ===== src/Step/Ending.antt =====
-- When a run of `StepWorkflow` comes to an end.
use fleetlift.Prelude.{String, ◌≡◌, refl, ◌≢◌, Bool, true, false, none, List, [], ◌∷◌, arith}
use fleetlift.Model.{StepResult}
use fleetlift.Engine.{History, World, Result, ok, err, wrap, StepInput, Run}
use fleetlift.Step.{
  rejection, settle, on_signal, attempts, opened, step_body, mark_failed, step_workflow,
}
use fleetlift.Step.Ends.{Outcome, waiting, returned, or_return}
use fleetlift.Step.Resume.{Turn, leave, pause, fail, error, block, resume}
use fleetlift.Step.Rounds.{
  Signal, approve, reject, steer, cancel, open_sandbox, preflight, verify, execute, executed, round,
}
use fleetlift.Step.Closing.{
  finish, finalized_as, finalize_step, open_pull_request, close_sandbox, close_step,
}

-- One of the signals does not steer.
abbrev pub decides : List Signal → Bool
decides [] = false
decides (steer prompt ∷ signals) = decides signals
decides (signal ∷ signals) = true

-- A human answers whenever the agent asks.
abbrev pub Answers : World → Type 0
Answers w = (h : History) → w.answer h ≢ none

abbrev is_block : Turn → Bool
is_block block = true
is_block turn = false

abbrev pub is_waiting : Outcome → Bool
is_waiting waiting = true
is_waiting (returned r f) = false

module _ (input : StepInput) (w : World) where
  pub finish_ends : (out : StepResult) (h : History) → is_waiting (finish input out w h).0 ≡ false
  finish_ends out h = as_ends (finalize_step input.step_run_id out w h).0
    where
      as_ends : (r : Result String) → is_waiting (finalized_as out r) ≡ false
      as_ends (ok s) = refl
      as_ends (err e) = refl

  pub close_ends :
      (s : String) (out : StepResult) (h : History)
      → is_waiting (close_step input s out w h).0 ≡ false
  unfolding close_step
  close_ends s out h =
      finish_ends (open_pull_request input s out w h).0
        (close_sandbox input s w (open_pull_request input s out w h).1).1

  pub mark_ends :
      (o : Outcome) (h : History)
      → is_waiting o ≡ false
      → is_waiting (mark_failed input o w h).0 ≡ false
  unfolding mark_failed
  mark_ends waiting h e = cc
  mark_ends (returned (ok out) f) h e = refl
  mark_ends (returned (err e') true) h e = refl
  mark_ends (returned (err e') false) h e = ground arith

module _ (input : StepInput) (w : World) (answers : Answers w) where
  resume_ends :
      (dirs : List String) (out : StepResult) (h : History)
      → is_block (resume input dirs out w h).0 ≡ false
  unfolding resume
  resume_ends dirs out h = ground (arith, answers h)

  verify_ends :
      (s : String) (out : StepResult) (h : History) → is_block (verify input s out w h).0 ≡ false
  unfolding verify
  verify_ends s out h = ground arith

  executed_ends :
      (s : String) (dirs : List String) (h : History) (r : Result StepResult)
      → is_block (executed input s dirs r w h).0 ≡ false
  executed_ends s dirs h (err e) = refl
  executed_ends s dirs h (ok out) = ground (arith, resume_ends dirs out h, verify_ends s out h)

  round_ends :
      (s : String) (dirs : List String) (c : String) (h : History)
      → is_block (round input s dirs c w h).0 ≡ false
  unfolding round
  round_ends s dirs c h = executed_ends s dirs _ (w.result (execute input s dirs c ∷ h))

  settle_ends :
      (s : String) (wait : StepResult → Run Outcome) (h : History)
      → ((out : StepResult) → is_waiting (wait out w h).0 ≡ false)
      → (turn : Turn) → is_block turn ≡ false
      → is_waiting (settle input s wait turn w h).0 ≡ false
  settle_ends s wait h waits (leave out) e = close_ends input w s out h
  settle_ends s wait h waits (pause out) e = waits out
  settle_ends s wait h waits (fail out) e = finish_ends input w out h
  settle_ends s wait h waits (error e') e = refl
  settle_ends s wait h waits block e = cc

  signal_ends :
      (s c : String) (out : StepResult) (signal : Signal) (signals : List Signal)
      (again : String → Run Outcome) (h : History)
      → decides (signal ∷ signals) ≡ true
      → ((c' : String) → decides signals ≡ true → is_waiting (again c' w h).0 ≡ false)
      → is_waiting (on_signal input s c out again signal w h).0 ≡ false
  signal_ends s c out approve signals again h d more = close_ends input w s out h
  signal_ends s c out reject signals again h d more = finish_ends input w (rejection input) h
  signal_ends s c out cancel signals again h d more = finish_ends input w (rejection input) h
  signal_ends s c out (steer prompt) signals again h d more = more _ d

  attempts_ends :
      (s : String) (dirs : List String) (signals : List Signal) (c : String) (h : History)
      → decides signals ≡ true
      → is_waiting (attempts input s dirs signals c w h).0 ≡ false
  unfolding attempts
  attempts_ends s dirs [] c h d = cc
  attempts_ends s dirs (signal ∷ signals) c h d =
      let (turn, h') = round input s dirs c w h in
      settle_ends s (λ out. on_signal input s c out (attempts input s dirs signals) signal) h'
        (λ out.
          signal_ends s c out signal signals (attempts input s dirs signals) h' d
            (λ c' later. attempts_ends s dirs signals c' h' later))
        turn (round_ends s dirs c h)

  prepared_ends :
      (s : String) (signals : List Signal) (h : History) (r : Result (List String))
      → decides signals ≡ true
      → is_waiting
          (or_return (wrap "pre-flight") r (λ dirs. attempts input s dirs signals "") w h).0
        ≡ false
  prepared_ends s signals h (ok dirs) d = attempts_ends s dirs signals "" h d
  prepared_ends s signals h (err e) d = refl

  opened_ends :
      (signals : List Signal) (h : History) (r : Result String)
      → decides signals ≡ true
      → is_waiting (opened input signals r w h).0 ≡ false
  opened_ends signals h (ok s) d =
      prepared_ends s signals (preflight input s w h).1 (preflight input s w h).0 d
  opened_ends signals h (err e) d = refl

-- `StepWorkflow` returns if among the operator's signals one does not steer, and a human answers
-- whenever the agent asks for input.
pub step_workflow_ends :
    (input : StepInput) (signals : List Signal) (w : World)
    → Answers w
    → decides signals ≡ true
    → (h : History)
    → (r : Result StepResult) × (f : Bool) × ((step_workflow input signals w h).0 ≡ returned r f)
unfolding step_workflow step_body
step_workflow_ends input signals w answers d h =
    let (r, h') = open_sandbox input w h in
    let (o, h'') = opened input signals r w h' in
    as_returned (mark_failed input o w h'').0
      (mark_ends input w o h'' (opened_ends input w answers signals h' r d))
  where
    as_returned :
        (o : Outcome)
        → is_waiting o ≡ false
        → (r : Result StepResult) × (f : Bool) × (o ≡ returned r f)
    as_returned waiting e = cc
    as_returned (returned r f) e = (r, f, refl)
