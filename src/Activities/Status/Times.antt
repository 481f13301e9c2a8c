-- ===== src/Activities/Status/Times.antt =====
-- internal/activity/status.go: the times of a step run.
use fleetlift.Prelude.{
  ℕ, ◌+◌, ◌≤◌, String, ◌≡◌, true, false, Option, none, some, [], arith, Bool-cases, inl, inr,
}
use fleetlift.Model.{Map, StepStatus}
use fleetlift.Activities.Status.{
  StepRow, is_terminal, is_pending, coalesce, update_step_row, complete_step_row, set_step_row,
}

-- What happens to a row from one time to another: `CreateStepRun` makes it, `UpdateStepStatus`,
-- `CompleteStepRun` and the helper `updateStepStatus`, which is called with statuses that are not terminal,
-- change it, and the clock goes on.
pub data Written : ℕ → StepRow → Type 0 where
  created :
      (now : ℕ)
      → Written now (record {
        status = StepStatus.pending;
        output = [];
        diff = none;
        error_message = none;
        started_at = none;
        completed_at = none;
        cost_usd = none;
      })
  waited : {now : ℕ} {row : StepRow} (ticks : ℕ) → Written now row → Written (now + ticks) row
  updated :
      {now : ℕ} {row : StepRow} (status : StepStatus)
      → Written now row
      → Written now (update_step_row now status row)
  completed :
      {now : ℕ} {row : StepRow} (status : StepStatus) (output : Map) (diff error : String)
      (cost : ℕ)
      → Written now row
      → Written now (complete_step_row now status output diff error cost row)
  set :
      {now : ℕ} {row : StepRow} (status : StepStatus)
      → is_terminal status ≡ false
      → Written now row
      → Written now (set_step_row status row)

-- The times so far: a completion comes after a start.
abbrev pub Ordered : ℕ → Option ℕ → Option ℕ → Type 0
Ordered now none none = Unit
Ordered now none (some c) = ⊥
Ordered now (some s) none = s ≤ now
Ordered now (some s) (some c) = (s ≤ c) × (c ≤ now)

abbrev pub IsStamped : Option ℕ → Type 0
IsStamped none = ⊥
IsStamped (some t) = Unit

pub record Timely (now : ℕ) (row : StepRow) : Type 0 where
  pub ordered : Ordered now row.started_at row.completed_at
  pub ended : is_terminal row.status ≡ true → IsStamped row.completed_at

started-le : (now : ℕ) (s c : Option ℕ) → Ordered now s c → coalesce s now ≤ now
started-le now none c o = omega arith
started-le now (some s) none o = o
started-le now (some s) (some c) o = omega (arith, o.0, o.1)

Ordered-later : (now ticks : ℕ) (s c : Option ℕ) → Ordered now s c → Ordered (now + ticks) s c
Ordered-later now ticks none none o = tt
Ordered-later now ticks none (some c) o = o
Ordered-later now ticks (some s) none o = omega (arith, o)
Ordered-later now ticks (some s) (some c) o = (o.0, omega (arith, o.1))

-- A start that is kept or made now, and a completion that is kept.
Ordered-started :
    (now : ℕ) (s c : Option ℕ) → Ordered now s c → Ordered now (some (coalesce s now)) c
Ordered-started now none none o = omega arith
Ordered-started now none (some c) o = absurd o
Ordered-started now (some s) none o = o
Ordered-started now (some s) (some c) o = o

updated-Timely :
    (now : ℕ) (row : StepRow) (status : StepStatus)
    → Timely now row
    → Timely now (update_step_row now status row)
unfolding update_step_row
updated-Timely now row status t = elim (Bool-cases (is_terminal status)) [
  | inl over ↦
      rw (update_step_row, over)
        (record {
          ordered = (started-le now row.started_at row.completed_at t.ordered, omega arith);
          ended = λ e. tt;
        })
  | inr unended ↦ elim (Bool-cases (is_pending status)) [
    | inl waits ↦
        rw (update_step_row, unended, waits)
          (record { ordered = t.ordered; ended = λ e. absurd (cc (unended, e)) })
    | inr goes ↦
        rw (update_step_row, unended, goes)
          (record {
            ordered = Ordered-started now row.started_at row.completed_at t.ordered;
            ended = λ e. absurd (cc (unended, e));
          })
  ]
]

-- Whatever the activities write, and in whatever order, a step run is completed only once it has
-- started and not before, neither lies in the future, and one whose status is terminal has the time of
-- its completion.
pub Written-Timely : (now : ℕ) (row : StepRow) → Written now row → Timely now row
unfolding complete_step_row
Written-Timely now row (created _) = record { ordered = tt; ended = λ e. cc }
Written-Timely now row (waited {now = before} ticks w) =
    let t = Written-Timely before row w in
    record { ordered = Ordered-later before ticks _ _ t.ordered; ended = t.ended }
Written-Timely now row (updated {row = old} status w) =
    updated-Timely now old status (Written-Timely now old w)
Written-Timely now row (completed {row = old} status output diff error cost w) =
    let t = Written-Timely now old w in
    record {
      ordered = (started-le now old.started_at old.completed_at t.ordered, omega arith);
      ended = λ e. tt;
    }
Written-Timely now row (set {row = old} status unended w) =
    let t = Written-Timely now old w in
    record { ordered = t.ordered; ended = λ e. absurd (cc (unended, e)) }
