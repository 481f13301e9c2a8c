-- ===== src/Step/Trace.antt =====
-- What a run of `StepWorkflow` adds to the history, seen through the activities of one kind.
use fleetlift.Prelude.{ℕ, suc, ◌+◌, String, ◌≡◌, refl, List, [], ◌∷◌, arith, if◌then◌else◌}
use fleetlift.Model.{StepStatus, StepResult}
use fleetlift.Engine.{Activity, History, World, Result, ok, err, StepInput}
use fleetlift.Step.Resume.{resume}
use fleetlift.Step.Rounds.{open_sandbox, preflight, verify, execute, executed, round}
use fleetlift.Step.Closing.{open_pull_request, close_sandbox, wants_pull_request}

-- The final statuses that were written by CompleteStepRun, each with its step run, the latest first.
abbrev pub records : History → List (String × StepStatus)
records [] = []
records (Activity.complete_step_run step_run status output diff text cost ∷ h) =
    (step_run, status) ∷ records h
records (a ∷ h) = records h

-- The pull requests that were asked for.
abbrev pub pulls : History → ℕ
pulls [] = 0
pulls (Activity.create_pull_request sandbox input ∷ h) = suc (pulls h)
pulls (a ∷ h) = pulls h

module _ (input : StepInput) (w : World) (h : History) where
  pub resume_trace :
      (dirs : List String) (output : StepResult)
      → (records (resume input dirs output w h).1 ≡ records h)
        × (pulls (resume input dirs output w h).1 ≡ pulls h)
  unfolding resume
  resume_trace dirs output = ground arith

  pub verify_trace :
      (sandbox : String) (output : StepResult)
      → (records (verify input sandbox output w h).1 ≡ records h)
        × (pulls (verify input sandbox output w h).1 ≡ pulls h)
  unfolding verify
  verify_trace sandbox output = ground arith

  executed_trace :
      (sandbox : String) (dirs : List String) (r : Result StepResult)
      → (records (executed input sandbox dirs r w h).1 ≡ records h)
        × (pulls (executed input sandbox dirs r w h).1 ≡ pulls h)
  executed_trace sandbox dirs (err e) = (refl, refl)
  executed_trace sandbox dirs (ok output) =
      ground (arith, resume_trace dirs output, verify_trace sandbox output)

  pub opening_trace :
      (sandbox : String)
      → (records (open_sandbox input w h).1 ≡ records h)
        × (pulls (open_sandbox input w h).1 ≡ pulls h)
        × (records (preflight input sandbox w h).1 ≡ records h)
        × (pulls (preflight input sandbox w h).1 ≡ pulls h)
  unfolding open_sandbox preflight
  opening_trace sandbox = ground arith

-- A round writes no final status and asks for no pull request.
pub round_trace :
    (input : StepInput) (w : World) (h : History) (sandbox : String) (dirs : List String)
    (conversation : String)
    → (records (round input sandbox dirs conversation w h).1 ≡ records h)
      × (pulls (round input sandbox dirs conversation w h).1 ≡ pulls h)
unfolding round
round_trace input w h sandbox dirs conversation =
    let started = execute input sandbox dirs conversation ∷ h in
    executed_trace input w started sandbox dirs (w.result started)

-- The pull request and the clean-up write no final status, and ask for one pull request at most.
pub closing_trace :
    (input : StepInput) (w : World) (h : History) (sandbox : String) (output : StepResult)
    → (let pulled = open_pull_request input sandbox output w h in
        (records (close_sandbox input sandbox w pulled.1).1 ≡ records h)
        × (pulls (close_sandbox input sandbox w pulled.1).1
            ≡ (if wants_pull_request input then 1 else 0) + pulls h))
unfolding open_pull_request close_sandbox
closing_trace input w h sandbox output = ground arith
