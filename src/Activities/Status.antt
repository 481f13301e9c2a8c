-- ===== src/Activities/Status.antt =====
-- internal/activity/status.go: the rows of step_runs, runs, artifacts and step_run_logs as its SQL
-- statements change and read them. A time is a count of the clock's ticks.
pub mod Times
pub mod Table
pub mod Primary
use fleetlift.Prelude.{
  ℕ, zero, ◌+◌, String, Bool, true, false, not, Option, none, some, List, [], ◌∷◌, ◌++◌, eqb,
  if◌then◌else◌, ◌==◌, ◌||◌,
}
use fleetlift.Prelude.Text.{◌+++◌, join, show, has_text}
use fleetlift.Model.{Map, StepStatus, RunStatus}
use fleetlift.Activities.Box.{LogLine}

-- `isTerminal` and `isRunTerminal`
abbrev pub is_terminal : StepStatus → Bool
is_terminal StepStatus.complete = true
is_terminal StepStatus.failed = true
is_terminal StepStatus.skipped = true
is_terminal _ = false

abbrev pub is_run_terminal : RunStatus → Bool
is_run_terminal RunStatus.complete = true
is_run_terminal RunStatus.failed = true
is_run_terminal RunStatus.cancelled = true
is_run_terminal _ = false

-- The columns of step_runs that the updates write; `none` is NULL.
pub record StepRow : Type 0 where
  pub status : StepStatus
  pub output : Map
  pub diff : Option String
  pub error_message : Option String
  pub started_at : Option ℕ
  pub completed_at : Option ℕ
  pub cost_usd : Option ℕ

-- COALESCE(a, b) and NULLIF(s, '')
abbrev pub coalesce : Option ℕ → ℕ → ℕ
coalesce none b = b
coalesce (some a) b = a

abbrev pub null_if_empty : String → Option String
null_if_empty s = if s == "" then none else some s

abbrev pub null_if_zero : ℕ → Option ℕ
null_if_zero n = if eqb n 0 then none else some n

abbrev pub is_pending : StepStatus → Bool
is_pending StepStatus.pending = true
is_pending _ = false

-- The statement of `UpdateStepStatus`.
unfoldable pub update_step_row : (now : ℕ) → StepStatus → StepRow → StepRow
update_step_row now status row =
    if is_terminal status
    then record row {
      status = status;
      started_at = some (coalesce row.started_at now);
      completed_at = some now;
    }
    else if not (is_pending status)
    then record row { status = status; started_at = some (coalesce row.started_at now) }
    else record row { status = status }

-- The statement of `CompleteStepRun`.
unfoldable pub complete_step_row :
    (now : ℕ) → StepStatus → Map → (diff error : String) → (cost : ℕ) → StepRow → StepRow
complete_step_row now status output diff error cost row = record {
  status = status;
  output = output;
  diff = null_if_empty diff;
  error_message = null_if_empty error;
  started_at = some (coalesce row.started_at now);
  completed_at = some now;
  cost_usd = null_if_zero cost;
}

-- The statement of the helper `updateStepStatus`.
abbrev pub set_step_row : StepStatus → StepRow → StepRow
set_step_row status row = record row { status = status }

pub record RunRow : Type 0 where
  pub status : RunStatus
  pub error_message : Option String
  pub started_at : Option ℕ
  pub completed_at : Option ℕ
  pub total_cost_usd : Option ℕ

-- SUM(cost_usd): NULL where there is no cost.
abbrev pub plus : Option ℕ → Option ℕ → Option ℕ
plus none total = total
plus (some c) none = some c
plus (some c) (some total) = some (c + total)

abbrev pub sum_costs : List StepRow → Option ℕ
sum_costs [] = none
sum_costs (row ∷ rows) = plus row.cost_usd (sum_costs rows)

abbrev pub is_running : RunStatus → Bool
is_running RunStatus.running = true
is_running _ = false

-- The statement of `UpdateRunStatus`, given the rows of the run's steps.
unfoldable pub update_run_row :
    (now : ℕ) → RunStatus → (error : String) → List StepRow → RunRow → RunRow
update_run_row now status error steps row =
    if is_run_terminal status
    then record {
      status = status;
      error_message = null_if_empty error;
      started_at = row.started_at;
      completed_at = some now;
      total_cost_usd = sum_costs steps;
    }
    else if is_running status
    then record row {
      status = status;
      started_at = some (coalesce row.started_at now);
      error_message = none;
    }
    else record row { status = status }

-- The conflict of `ON CONFLICT (step_run_id, seq)`, among the lines of one step run.
abbrev pub has_seq : ℕ → List LogLine → Bool
has_seq n [] = false
has_seq n (l ∷ ls) = eqb l.seq n || has_seq n ls

abbrev pub insert_line : LogLine → List LogLine → List LogLine
insert_line l table = if has_seq l.seq table then table else table ++ l ∷ []

-- What `batchInsertLogs` does to the table.
unfoldable pub insert_lines : List LogLine → List LogLine → List LogLine
insert_lines [] table = table
insert_lines (l ∷ ls) table = insert_lines ls (insert_line l table)

abbrev value_group : ℕ → String
value_group base =
    "($"
    +++ show (base + 1)
    +++ ", $"
    +++ show (base + 2)
    +++ ", $"
    +++ show (base + 3)
    +++ ", $"
    +++ show (base + 4)
    +++ ")"

-- The value_groups from the one of this index on.
abbrev value_groups : ℕ → List LogLine → List String
value_groups base [] = []
value_groups base (l ∷ ls) = value_group base ∷ value_groups (base + 4) ls

-- `buildInsertLogsQuery`
unfoldable pub build_insert_logs_query : List LogLine → String
unfolding show join
build_insert_logs_query lines =
    "INSERT INTO step_run_logs (step_run_id, seq, stream, content) VALUES "
    +++ join ", " (value_groups 0 lines)
    +++ " ON CONFLICT (step_run_id, seq) DO NOTHING"

pub record Artifact : Type 0 where
  pub id : String
  pub name : String
  pub size_bytes : ℕ

abbrev pub keywords : List String
keywords = "fleet-summary" ∷ "fleet_summary" ∷ "report" ∷ "summary" ∷ []

-- `strings.ToLower` is a parameter.
module _ (to_lower : String → String) where
  abbrev pub bears : String → Artifact → Bool
  bears keyword art = has_text keyword (to_lower art.name)

  abbrev pub first_with : String → List Artifact → Option String
  first_with keyword [] = none
  first_with keyword (art ∷ arts) =
      if bears keyword art then some art.id else first_with keyword arts

  abbrev pub first_of : List String → List Artifact → Option String
  first_of [] arts = none
  first_of (k ∷ ks) arts = elim (first_with k arts) [ some id ↦ some id | none ↦ first_of ks arts ]

  -- `GetPrimaryRunArtifactID`, given the artifacts by falling size.
  unfoldable pub primary_artifact : List Artifact → String
  unfolding has_text
  primary_artifact [] = ""
  primary_artifact (art ∷ arts) = elim (first_of keywords (art ∷ arts)) [
    | some id ↦ id
    | none ↦ art.id
  ]
