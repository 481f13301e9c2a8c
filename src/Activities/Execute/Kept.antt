-- ===== src/Activities/Execute/Kept.antt =====
-- internal/activity/execute.go: a proof rule for the part of `ExecuteStep` before the agent. What
-- commands, heartbeats, statuses and log lines leave as it is, it leaves as it is.
use fleetlift.Prelude.{
  String, Bool, true, false, Option, none, some, List, [], ◌∷◌, if◌then◌else◌, ◌==◌, Bool-cases,
  Option-cases, inl, inr, ltb,
}
use fleetlift.Model.{StepStatus, RepoRef}
use fleetlift.Engine.{ContinuationContext}
use fleetlift.Activities.Box.{
  Host, Box, Act, Answer, done, fails, ExecAnswer, exec, heartbeat, set_status, exec_in, perform,
  log_line, update_step_status, ◌>>=◌, ◌>>◌, pure,
}
use fleetlift.Activities.Names.{git_failed}
use fleetlift.Activities.Execute.Clone.{
  go_on, then_done, banner, git_step, git_answer, head_of, checkout_ref, first, working_branch,
  fresh_clone, branch_of, not_cloned, cloned, in_clean_dir, obtained, refuse, unless_error,
  clone_all, is_checkpoint_branch, checkout_each, checkout_all,
}

pub record Rule (P : Box → Type 0) : Type 0 where
  pub execs :
      (command dir : String) (b : Box) → P b → P (record b { trace = exec command dir ∷ b.trace })
  pub beats : (text : String) (b : Box) → P b → P (record b { trace = heartbeat text ∷ b.trace })
  pub sets : (s : StepStatus) (b : Box) → P b → P (record b { trace = set_status s ∷ b.trace })
  pub logs :
      (stream content : String) (w : Host) (b : Box) → P b → P (log_line stream content w b).1

-- An activity that leaves it as it is.
pub record Keeps (P : Box → Type 0) {A : Type 0} (m : Act A) : Type 0 where
  pub kept : (w : Host) (b : Box) → P b → P (m w b).1

module _ {P : Box → Type 0} (rule : Rule P) where
  open rule use {execs, beats, sets, logs}

  pub pure-Keeps : {A : Type 0} (a : A) → Keeps P (pure a)
  pure-Keeps a = record { kept = λ w b p. p }

  pub then-Keeps :
      {A B : Type 0} {m : Act A} {f : A → Act B}
      → Keeps P m
      → ((a : A) → Keeps P (f a))
      → Keeps P (m >>= f)
  then-Keeps {A} {B} {m} {f} first rest = record {
    kept = λ w b p. (rest (m w b).0).kept w (m w b).1 (first.kept w b p);
  }

  pub after-Keeps :
      {A B : Type 0} {m : Act A} {n : Act B} → Keeps P m → Keeps P n → Keeps P (m >> n)
  after-Keeps {A} {B} {m} {n} first rest = record {
    kept = λ w b p. rest.kept w (m w b).1 (first.kept w b p);
  }

  pub go_on-Keeps :
      {A B : Type 0} {f : A → Act (Answer B)}
      → ((a : A) → Keeps P (f a))
      → (a : Answer A) → Keeps P (go_on f a)
  go_on-Keeps all (done x) = record { kept = (all x).kept }
  go_on-Keeps all (fails text) = record { kept = λ w b p. p }

  pub done-Keeps :
      {A B : Type 0} {m : Act (Answer A)} {f : A → Act (Answer B)}
      → Keeps P m
      → ((a : A) → Keeps P (f a))
      → Keeps P (then_done m f)
  done-Keeps {A} {B} {m} {f} first rest = record {
    kept = λ w b p. (go_on-Keeps rest (m w b).0).kept w (m w b).1 (first.kept w b p);
  }

  if-Keeps :
      {A : Type 0} (t : Bool) {m n : Act A} → Keeps P m → Keeps P n → Keeps P (if t then m else n)
  if-Keeps true first second = record { kept = first.kept }
  if-Keeps false first second = record { kept = second.kept }

  pub exec-Keeps : (command dir : String) → Keeps P (exec_in command dir)
  exec-Keeps command dir = record { kept = λ w b p. execs command dir b p }

  log-Keeps : (stream content : String) → Keeps P (log_line stream content)
  log-Keeps stream content = record { kept = logs stream content }

  pub beat-Keeps : (text : String) → Keeps P (perform (heartbeat text))
  beat-Keeps text = record { kept = λ w b p. beats text b p }

  pub update-Keeps : (s : StepStatus) → Keeps P (update_step_status s)
  update-Keeps s = record {
    kept = λ w b p. elim (Option-cases (w.set_fails (set_status s ∷ b.trace))) [
      | inl well ↦ rw (update_step_status, well) (sets s b p)
      | inr ill ↦ rw (update_step_status, ill.1) (beats _ _ (sets s b p))
    ];
  }

  pub banner-Keeps : Keeps P banner
  banner-Keeps = record {
    kept = λ w b p. elim (Bool-cases (ltb 1 w.attempt)) [
      | inl again ↦ rw (banner, again) (logs _ _ w b p)
      | inr once ↦ rw (banner, once) p
    ];
  }

  told-Keeps :
      (label prefix git_prefix : String) (a : ExecAnswer) (o : Option String)
      → Keeps P (git_answer label prefix git_prefix a o)
  told-Keeps label prefix git_prefix a none =
      if-Keeps (git_failed a.stderr) (after-Keeps (log-Keeps _ _) (pure-Keeps _)) (pure-Keeps _)
  told-Keeps label prefix git_prefix a (some text) = after-Keeps (log-Keeps _ _) (pure-Keeps _)

  git-Keeps :
      (label prefix git_prefix command : String)
      → Keeps P (git_step label prefix git_prefix command)
  git-Keeps label prefix git_prefix command =
      then-Keeps (exec-Keeps command "/") (λ a. told-Keeps label prefix git_prefix a a.error)

  checkout_ref-Keeps : (repo : RepoRef) → Keeps P (checkout_ref repo)
  checkout_ref-Keeps repo = if-Keeps (repo.ref == "") (pure-Keeps _) (
      after-Keeps (log-Keeps _ _) (
        done-Keeps (git-Keeps _ _ _ _)
          λ v. done-Keeps (git-Keeps _ _ _ _) λ x. after-Keeps (log-Keeps _ _) (pure-Keeps _)))

  head-Keeps : (repo : RepoRef) → Keeps P (head_of repo)
  head-Keeps repo = then-Keeps (exec-Keeps _ _) (λ a. pure-Keeps a.stdout)

  branch-Keeps : (repo : RepoRef) (o : Option String) → Keeps P (branch_of repo o)
  branch-Keeps repo none = pure-Keeps _
  branch-Keeps repo (some prefix) =
      done-Keeps (git-Keeps _ _ _ _) (λ a. after-Keeps (log-Keeps _ _) (pure-Keeps _))

  working-Keeps : (run_id : String) (repo : RepoRef) → Keeps P (working_branch run_id repo)
  working-Keeps run_id repo =
      if-Keeps (repo.create_branch == "") (pure-Keeps _) (branch-Keeps repo (first 8 run_id))

  cloned-Keeps : (repo : RepoRef) (head : String) → Keeps P (cloned repo head)
  cloned-Keeps repo head =
      if-Keeps (head == "") (after-Keeps (log-Keeps "stderr" not_cloned) (pure-Keeps _))
        (pure-Keeps (done tt))

  in_dir-Keeps : (repo : RepoRef) (o : Option String) → Keeps P (in_clean_dir repo o)
  in_dir-Keeps repo (some text) = pure-Keeps _
  in_dir-Keeps repo none =
      done-Keeps (git-Keeps _ _ _ _)
        λ stderr. after-Keeps (log-Keeps _ _) (then-Keeps (head-Keeps repo) (cloned-Keeps repo))

  fresh-Keeps : (repo : RepoRef) → Keeps P (fresh_clone repo)
  fresh-Keeps repo = after-Keeps (beat-Keeps _) (
      after-Keeps (update-Keeps _) (
        after-Keeps (log-Keeps _ _) (then-Keeps (exec-Keeps _ _) (λ a. in_dir-Keeps repo a.error))))

  obtained-Keeps :
      (run_id : String) (repo : RepoRef) (head : String) → Keeps P (obtained run_id repo head)
  obtained-Keeps run_id repo head =
      if-Keeps (head == "")
        (done-Keeps (fresh-Keeps repo)
          λ u. done-Keeps (checkout_ref-Keeps repo) λ v. working-Keeps run_id repo)
        (after-Keeps (log-Keeps _ _) (pure-Keeps _))

  pub clone_all-Keeps : (run_id : String) (repos : List RepoRef) → Keeps P (clone_all run_id repos)
  unfolding clone_all
  clone_all-Keeps run_id [] = pure-Keeps _
  clone_all-Keeps run_id (repo ∷ repos) =
      done-Keeps (then-Keeps (head-Keeps repo) (obtained-Keeps run_id repo))
        (λ u. clone_all-Keeps run_id repos)

  refuse-Keeps : (text : Host → String) → Keeps P (refuse text)
  refuse-Keeps text = record { kept = λ w b p. p }

  unless-Keeps :
      (branch : String) {more : Act (Answer Unit)}
      → Keeps P more
      → (o : Option String) → Keeps P (unless_error branch more o)
  unless-Keeps branch more none = record { kept = more.kept }
  unless-Keeps branch more (some text) = refuse-Keeps _

  each-Keeps : (branch : String) (repos : List RepoRef) → Keeps P (checkout_each branch repos)
  unfolding checkout_each
  each-Keeps branch [] = pure-Keeps _
  each-Keeps branch (repo ∷ repos) =
      then-Keeps (exec-Keeps _ _) (λ a. unless-Keeps branch (each-Keeps branch repos) a.error)

  pub checkout_all-Keeps :
      (c : Option ContinuationContext) (repos : List RepoRef) → Keeps P (checkout_all c repos)
  unfolding checkout_all
  checkout_all-Keeps none repos = pure-Keeps _
  checkout_all-Keeps (some c) repos = if-Keeps (c.checkpoint_branch == "") (pure-Keeps _) (
      if-Keeps (is_checkpoint_branch c.checkpoint_branch) (each-Keeps c.checkpoint_branch repos)
        (refuse-Keeps _))
