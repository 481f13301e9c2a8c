-- ===== src/Activities/Execute/Clone.antt =====
-- internal/activity/execute.go: the repositories in the sandbox, before the agent runs.
use fleetlift.Prelude.{
  ℕ, zero, suc, String, Bool, false, not, ◌&&◌, ◌||◌, Option, none, some, List, [], ◌∷◌, ltb,
  if◌then◌else◌, ◌==◌,
}
use fleetlift.Prelude.Text.{◌+++◌, show, trim_space}
use fleetlift.Validate.Names.{in_range, every, id_char}
use fleetlift.Shell.{quote}
use fleetlift.Model.{StepStatus, RepoRef}
use fleetlift.Engine.{ContinuationContext}
use fleetlift.Activities.Box.{
  Host, Act, Answer, done, fails, ExecAnswer, heartbeat, perform, exec_in, log_line,
  update_step_status, pure, ◌>>=◌, ◌>>◌,
}
use fleetlift.Activities.Names.{repo_name, git_failed}

-- An error returns at once.
abbrev pub go_on : {A B : Type 0} → (A → Act (Answer B)) → Answer A → Act (Answer B)
go_on f (done x) = f x
go_on f (fails text) = pure (fails text)

abbrev pub then_done : {A B : Type 0} → Act (Answer A) → (A → Act (Answer B)) → Act (Answer B)
then_done m f = m >>= go_on f

abbrev pub repo_dir : RepoRef → String
repo_dir repo = "/workspace/" +++ repo_name repo

abbrev pub default_clone_depth : String
default_clone_depth = "50"

-- The retry banner.
abbrev pub banner : Act Unit
banner w b =
    if ltb 1 w.attempt
    then log_line "stderr" ("--- retry attempt " +++ show w.attempt +++ " ---") w b
    else (tt, b)

-- A git command: an error of the sandbox, or a failure that its standard error tells, is logged and
-- returned. `label` begins the log line, the other two the errors.
abbrev pub git_answer :
    (label prefix git_prefix : String) → ExecAnswer → Option String → Act (Answer String)
git_answer label prefix git_prefix a (some text) =
    log_line "stderr" (label +++ ": " +++ text) >> pure (fails (prefix +++ ": " +++ text))
git_answer label prefix git_prefix a none =
    if git_failed a.stderr
    then log_line "stderr" (label +++ ": " +++ trim_space a.stderr)
      >> pure (fails (git_prefix +++ ": " +++ trim_space a.stderr))
    else pure (done a.stderr)

abbrev pub git_step : (label prefix git_prefix command : String) → Act (Answer String)
git_step label prefix git_prefix command =
    exec_in command "/" >>= λ a. git_answer label prefix git_prefix a a.error

abbrev pub clone_command : RepoRef → String
clone_command repo =
    "git clone --depth "
    +++ default_clone_depth
    +++ (if repo.branch == "" then "" else " --branch " +++ quote repo.branch)
    +++ " "
    +++ quote repo.url
    +++ " "
    +++ quote (repo_dir repo)

-- `cat .git/HEAD`, to see whether there is a clone.
abbrev pub head_of : RepoRef → Act String
head_of repo =
    exec_in ("cat " +++ quote (repo_dir repo +++ "/.git/HEAD")) "/" >>= λ a. pure a.stdout

abbrev pub fetch_command : RepoRef → String
fetch_command repo = "git -C " +++ quote (repo_dir repo) +++ " fetch origin " +++ quote repo.ref

abbrev pub checkout_ref : RepoRef → Act (Answer Unit)
checkout_ref repo =
    if repo.ref == ""
    then pure (done tt)
    else (log_line "stdout" ("Fetching ref " +++ repo.ref +++ "…")
        >> then_done
            (git_step "fetch failed" ("fetch ref " +++ repo.ref) ("fetch ref " +++ repo.ref)
              (fetch_command repo))
            λ a.
              then_done
                (git_step "checkout failed" ("checkout ref " +++ repo.ref)
                  ("checkout FETCH_HEAD for ref " +++ repo.ref)
                  ("git -C " +++ quote (repo_dir repo) +++ " checkout FETCH_HEAD"))
                λ c. log_line "stdout" ("Checked out ref " +++ repo.ref) >> pure (done tt))

-- `s[:8]`; of a shorter text it panics, which is `none`. Run ids are ASCII.
unfoldable pub first : ℕ → String → Option String
first zero s = some ""
first (suc n) String.[] = none
first (suc n) (String.◌∷◌ c s) = elim (first n s) [ none ↦ none | some t ↦ some (String.◌∷◌ c t) ]

abbrev pub create_branch : RepoRef → String → Act (Answer Unit)
create_branch repo branch =
    then_done
      (git_step "create branch failed" ("create branch " +++ branch) ("create branch " +++ branch)
        ("git -C " +++ quote (repo_dir repo) +++ " checkout -b " +++ quote branch))
      λ a. log_line "stdout" ("Created branch " +++ branch) >> pure (done tt)

abbrev pub branch_of : RepoRef → Option String → Act (Answer Unit)
branch_of repo none = pure (fails "slice bounds out of range")
branch_of repo (some prefix) = create_branch repo (repo.create_branch +++ "/" +++ prefix)

abbrev pub working_branch : String → RepoRef → Act (Answer Unit)
working_branch run_id repo =
    if repo.create_branch == "" then pure (done tt) else branch_of repo (first 8 run_id)

abbrev pub not_cloned : String
not_cloned =
    "clone failed: repository not cloned (check GITHUB_TOKEN credential is configured if the repo is private)"

-- The look at what the clone has made.
abbrev pub cloned : RepoRef → String → Act (Answer Unit)
cloned repo head =
    if head == ""
    then (log_line "stderr" not_cloned
        >> pure (fails ("clone " +++ repo.url +++ ": no .git directory after clone")))
    else pure (done tt)

-- The clone, once what a previous attempt may have left is gone.
abbrev pub in_clean_dir : RepoRef → Option String → Act (Answer Unit)
in_clean_dir repo (some text) = pure (fails ("clean repo dir " +++ repo_dir repo +++ ": " +++ text))
in_clean_dir repo none =
    then_done
      (git_step "clone failed" ("clone " +++ repo.url) ("clone " +++ repo.url) (clone_command repo))
      λ stderr. log_line "stdout" (trim_space stderr) >> (head_of repo >>= cloned repo)

abbrev pub fresh_clone : RepoRef → Act (Answer Unit)
fresh_clone repo =
    perform (heartbeat ("cloning " +++ repo_name repo))
    >> (update_step_status StepStatus.cloning
        >> (log_line "stdout" ("Cloning " +++ repo.url +++ "…")
            >> (exec_in ("rm -rf " +++ quote (repo_dir repo)) "/" >>= λ a.
                in_clean_dir repo a.error)))

abbrev pub obtained : String → RepoRef → String → Act (Answer Unit)
obtained run_id repo head =
    if head == ""
    then (then_done (fresh_clone repo)
        λ u. then_done (checkout_ref repo) λ v. working_branch run_id repo)
    else (log_line "stdout" ("Using existing clone at " +++ repo_dir repo) >> pure (done tt))

abbrev pub clone_repo : String → RepoRef → Act (Answer Unit)
clone_repo run_id repo = head_of repo >>= obtained run_id repo

unfoldable pub clone_all : String → List RepoRef → Act (Answer Unit)
unfolding repo_name git_failed trim_space quote first show
clone_all run_id [] = pure (done tt)
clone_all run_id (repo ∷ repos) = then_done (clone_repo run_id repo) λ u. clone_all run_id repos

-- `^fleetlift/checkpoint/[a-zA-Z0-9_-]+$`
abbrev branch_char : ℕ → Bool
branch_char c = id_char c || in_range b'A' b'Z' c

unfoldable pub after_prefix : String → String → Option String
after_prefix String.[] s = some s
after_prefix (String.◌∷◌ c p) String.[] = none
after_prefix (String.◌∷◌ c p) (String.◌∷◌ d s) =
    let rest = after_prefix p s in if String.◌∷◌ c "" == String.◌∷◌ d "" then rest else none

unfoldable pub is_checkpoint_branch : String → Bool
unfolding after_prefix
is_checkpoint_branch branch = elim (after_prefix "fleetlift/checkpoint/" branch) [
  | none ↦ false
  | some rest ↦ not (rest == "") && every branch_char rest
]

abbrev pub checkout_command : String → RepoRef → String
checkout_command branch repo =
    "cd "
    +++ quote (repo_dir repo)
    +++ " && git fetch origin "
    +++ quote branch
    +++ " && git checkout "
    +++ quote branch

abbrev pub refuse : (Host → String) → Act (Answer Unit)
refuse text w b = (fails (text w), b)

abbrev pub unless_error : String → Act (Answer Unit) → Option String → Act (Answer Unit)
unless_error branch more (some text) =
    refuse (λ w. "checkout checkpoint branch " +++ w.quoted branch +++ ": " +++ text)
unless_error branch more none = more

unfoldable pub checkout_each : String → List RepoRef → Act (Answer Unit)
unfolding repo_name quote
checkout_each branch [] = pure (done tt)
checkout_each branch (repo ∷ repos) = exec_in (checkout_command branch repo) "/" >>= λ a.
    unless_error branch (checkout_each branch repos) a.error

-- The checkpoint branch of a step that goes on.
unfoldable pub checkout_all : Option ContinuationContext → List RepoRef → Act (Answer Unit)
unfolding is_checkpoint_branch checkout_each
checkout_all none repos = pure (done tt)
checkout_all (some context) repos =
    if context.checkpoint_branch == ""
    then pure (done tt)
    else if is_checkpoint_branch context.checkpoint_branch
    then checkout_each context.checkpoint_branch repos
    else refuse (λ w. "invalid checkpoint branch name: " +++ w.quoted context.checkpoint_branch)
