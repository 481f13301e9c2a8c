-- ===== src/Activities/Execute/Closing.antt =====
-- internal/activity/execute.go: what follows the agent leaves what commands leave.
use fleetlift.Prelude.{
  inl, inr, Option, none, some, List, [], ◌∷◌, lookup, Bool-cases, Option-cases,
}
use fleetlift.Model.{Map, as_bool, RepoRef}
use fleetlift.Engine.{ExecuteStepInput}
use fleetlift.Activities.Box.{Box}
use fleetlift.Activities.Execute.{
  with_diff, diffs, exit_code, report, ended, after_agent, is_waiting, repos,
}
use fleetlift.Activities.Execute.Kept.{Rule, Keeps, then-Keeps, exec-Keeps, pure-Keeps}

module _ {P : Box → Type 0} (rule : Rule P) where
  diffs-Keeps : (rs : List RepoRef) → Keeps P (diffs rs)
  unfolding diffs
  diffs-Keeps [] = pure-Keeps rule []
  diffs-Keeps (repo ∷ rs) =
      then-Keeps rule (exec-Keeps rule _ _)
        (λ a. then-Keeps rule (diffs-Keeps rs) (λ rest. pure-Keeps rule (with_diff a rest)))

  report-Keeps : (input : ExecuteStepInput) (raw : Map) → Keeps P (report input raw)
  report-Keeps input raw = record {
    kept = λ w b p. elim (Bool-cases (as_bool (lookup "is_error" raw))) [
      | inl reported ↦ rw (report, reported) p
      | inr fine ↦ elim (Option-cases (exit_code w (lookup "exit_code" raw))) [
        | inl none_set ↦ rw (report, fine, none_set) ((diffs-Keeps (repos input)).kept w b p)
        | inr code ↦ rw (report, fine, code.1) p
      ]
    ];
  }

  ended-Keeps : (input : ExecuteStepInput) (last : Option Map) → Keeps P (ended input last)
  ended-Keeps input none = pure-Keeps rule _
  ended-Keeps input (some raw) = report-Keeps input raw

  pub agent_done-Keeps :
      (input : ExecuteStepInput) (last : Option Map) → Keeps P (after_agent input last)
  agent_done-Keeps input last = record {
    kept = λ w b p. elim (Bool-cases (is_waiting input (w.status_now b.trace))) [
      | inl waits ↦ rw (after_agent, waits) p
      | inr on ↦ rw (after_agent, on) ((ended-Keeps input last).kept w b p)
    ];
  }
