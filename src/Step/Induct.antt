-- ===== src/Step/Induct.antt =====
-- A proof rule for the body of `StepWorkflow`: what holds of each of its ways out, and is not
-- disturbed by the rounds before it, holds of the whole.
use fleetlift.Prelude.{String, List, [], ◌∷◌, false}
use fleetlift.Model.{StepResult}
use fleetlift.Engine.{wrap, Error, History, World, Result, ok, err, Run, StepInput}
use fleetlift.Step.{rejection, settle, on_signal, attempts, opened, step_body}
use fleetlift.Step.Ends.{Outcome, waiting, returned, or_return}
use fleetlift.Step.Resume.{Turn, leave, pause, fail, error, block}
use fleetlift.Step.Rounds.{Signal, approve, reject, steer, cancel, open_sandbox, preflight, round}
use fleetlift.Step.Closing.{finish, close_step}

-- `Q before outcome after`, for a workflow with this input in this world.
pub record Rule (input : StepInput) (w : World) (Q : History → Outcome → History → Type 0)
    : Type 0 where
  pub opens : (h h' : History) (o : Outcome) → Q (open_sandbox input w h).1 o h' → Q h o h'
  pub prepares :
      (s : String) (h h' : History) (o : Outcome) → Q (preflight input s w h).1 o h' → Q h o h'
  pub rounds :
      (s : String) (dirs : List String) (c : String) (h h' : History) (o : Outcome)
      → Q (round input s dirs c w h).1 o h'
      → Q h o h'
  pub closes :
      (s : String) (out : StepResult) (h : History)
      → Q h (close_step input s out w h).0 (close_step input s out w h).1
  pub finishes :
      (out : StepResult) (h : History) → Q h (finish input out w h).0 (finish input out w h).1
  pub errors : (e : Error) (h : History) → Q h (returned (err e) false) h
  pub waits : (h : History) → Q h waiting h

module _ {input : StepInput} {w : World} {Q : History → Outcome → History → Type 0}
    (rule : Rule input w Q) where
  open rule use {opens, prepares, rounds, closes, finishes, errors, waits}

  abbrev Good : History → Run Outcome → Type 0
  Good h m = Q h (m w h).0 (m w h).1

  settle_ind :
      (s : String) (wait : StepResult → Run Outcome) (h : History)
      → ((out : StepResult) → Good h (wait out))
      → (turn : Turn) → Good h (settle input s wait turn)
  settle_ind s wait h waiting_so (leave out) = closes s out h
  settle_ind s wait h waiting_so (pause out) = waiting_so out
  settle_ind s wait h waiting_so (fail out) = finishes out h
  settle_ind s wait h waiting_so (error e) = errors e h
  settle_ind s wait h waiting_so block = waits h

  signal_ind :
      (s c : String) (out : StepResult) (again : String → Run Outcome) (h : History)
      → ((c' : String) → Good h (again c'))
      → (signal : Signal) → Good h (on_signal input s c out again signal)
  signal_ind s c out again h more approve = closes s out h
  signal_ind s c out again h more reject = finishes (rejection input) h
  signal_ind s c out again h more cancel = finishes (rejection input) h
  signal_ind s c out again h more (steer prompt) = more _

  attempts_ind :
      (s : String) (dirs : List String) (signals : List Signal) (c : String) (h : History)
      → Good h (attempts input s dirs signals c)
  unfolding attempts
  attempts_ind s dirs [] c h =
      let (turn, h') = round input s dirs c w h in
      rounds s dirs c h _ _ (settle_ind s _ h' (λ out. waits h') turn)
  attempts_ind s dirs (signal ∷ signals) c h =
      let (turn, h') = round input s dirs c w h in
      rounds s dirs c h _ _ (
        settle_ind s _ h'
          (λ out.
            signal_ind s c out (attempts input s dirs signals) h'
              (λ c'. attempts_ind s dirs signals c' h') signal)
          turn)

  prepared_ind :
      (s : String) (signals : List Signal) (h : History) (r : Result (List String))
      → Good h (or_return (wrap "pre-flight") r (λ dirs. attempts input s dirs signals ""))
  prepared_ind s signals h (ok dirs) = attempts_ind s dirs signals "" h
  prepared_ind s signals h (err e) = errors _ h

  opened_ind :
      (signals : List Signal) (h : History) (r : Result String) → Good h (opened input signals r)
  opened_ind signals h (ok s) =
      let (d, h') = preflight input s w h in prepares s h _ _ (prepared_ind s signals h' d)
  opened_ind signals h (err e) = errors _ h

  pub step_body_ind : (signals : List Signal) (h : History) → Good h (step_body input signals)
  unfolding step_body
  step_body_ind signals h =
      let (r, h') = open_sandbox input w h in opens h _ _ (opened_ind signals h' r)
