-- ===== src/Engine/Answers.antt =====
-- What the code relies on Temporal for. An answer may depend on all that has happened, which is
-- the list of the activities so far, the latest first; it holds the activity that is answered.
use fleetlift.Prelude.{String, Bool, false, Option, List}
use fleetlift.Prelude.Text.{◌+++◌}
use fleetlift.Model.{Map, StepResult, AgentProfileBody}
use fleetlift.Engine.Calls.{Activity}

-- A Go error: its text, and whether it is or wraps a `CanceledError`.
pub record Error : Type 0 where
  pub text : String
  pub canceled : Bool

pub data Result (A : Type 0) : Type 0 where
  ok : A → Result A
  err : Error → Result A

-- `fmt.Errorf("prefix: %w", err)`, and an error of its own.
abbrev pub wrap : String → Error → Error
wrap prefix e = record e { text = prefix +++ ": " +++ e.text }

abbrev pub failure : String → Error
failure text = record { text = text; canceled = false }

abbrev pub History : Type 0
History = List Activity

-- `reply` answers the activities that return a text or nothing, `result` ExecuteStep and the child
-- workflow of a step. `fan_out` is the action of the operator's `fan_out_resolve` signal, `none`
-- when the timer fires first, and `answer` the answer on the `respond` channel, `none` when none
-- ever comes.
pub record World : Type 0 where
  pub reply : History → Result String
  pub result : History → Result StepResult
  pub action : History → Result Map
  pub dirs : History → Result (List String)
  pub profile : History → Result AgentProfileBody
  pub canceled : History → Bool
  pub fan_out : History → Option String
  pub answer : History → Option String

-- A workflow's code: it reads the world's answers and adds to the history.
abbrev pub Run : Type 0 → Type 0
Run A = World → History → A × History
