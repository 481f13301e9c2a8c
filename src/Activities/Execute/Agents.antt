-- ===== src/Activities/Execute/Agents.antt =====
-- internal/activity/execute.go: how often the agent runs.
use fleetlift.Prelude.{
  ℕ, suc, String, ◌≡◌, refl, ap, ◌∙◌, ◌⊎◌, inl, inr, true, Option, none, some, List, [], ◌∷◌, ◌++◌,
  All, contains, length, leb, ◌||◌, Bool-cases, ◌==◌,
}
use fleetlift.Prelude.Text.{◌+++◌, starts_with}
use fleetlift.Model.{Map, RepoRef}
use fleetlift.Engine.{ExecuteStepInput}
use fleetlift.Activities.Box.{
  Host, Box, LogLine, Event, exec, insert_logs, heartbeat, set_status, run_agent, Trace, Act,
  Answer, done, fails, log_line, write, add, log_flush_threshold,
}
use fleetlift.Activities.Execute.{
  after_agent, insecure, unless_insecure, prepared, execute_step, repos,
}
use fleetlift.Activities.Execute.Agent.{is_noise, read_events, begun, start_agent, run_opts}
use fleetlift.Activities.Execute.Clone.{clone_all, checkout_all, go_on, then_done}
use fleetlift.Activities.Execute.Kept.{
  Rule, Keeps, go_on-Keeps, update-Keeps, banner-Keeps, clone_all-Keeps, checkout_all-Keeps,
}
use fleetlift.Activities.Execute.Closing.{agent_done-Keeps}
use fleetlift.Model.{StepStatus}

-- The scan finds nothing only where each URL begins with `https://`.
abbrev pub IsHttps : RepoRef → Type 0
IsHttps repo = starts_with "https://" repo.url ≡ true

insecure-none :
    (input : ExecuteStepInput) (rs : List RepoRef) → insecure input rs ≡ none → All IsHttps rs
unfolding insecure
insecure-none input [] e = tt
insecure-none input (r ∷ rs) e = elim (Bool-cases (starts_with "https://" r.url)) [
  | inl secure ↦ (secure, insecure-none input rs (rw (insecure, secure) at e))
  | inr bare ↦ cc (rw (insecure, bare) at e)
]

-- How often the agent was run.
abbrev pub agents : Trace → ℕ
agents [] = 0
agents (run_agent o ∷ t) = suc (agents t)
agents (exec c d ∷ t) = agents t
agents (insert_logs ls ∷ t) = agents t
agents (heartbeat s ∷ t) = agents t
agents (set_status s ∷ t) = agents t

log-agents :
    (n : ℕ) (stream content : String) (w : Host) (b : Box)
    → agents b.trace ≡ n
    → agents (log_line stream content w b).1.trace ≡ n
log-agents n stream content w b e = elim (Bool-cases (content == "")) [
  | inl empty ↦ rw (log_line, empty) e
  | inr full ↦ rw (log_line, full) e
]

agents-rule : (n : ℕ) → Rule (λ b. agents b.trace ≡ n)
agents-rule n = record {
  execs = λ command dir b e. e;
  beats = λ text b e. e;
  sets = λ s b e. e;
  logs = log-agents n;
}

-- Neither the events nor the log runs the agent.
write-agents :
    (ls : List LogLine) (w : Host) (b : Box) → agents (write ls w b).1.trace ≡ agents b.trace
write-agents [] w b = refl
write-agents (l ∷ ls) w b = refl

add-agents :
    (content : String) (w : Host) (b : Box) → agents (add content w b).1.trace ≡ agents b.trace
add-agents content w b = elim (Bool-cases (content == "")) [
  | inl empty ↦ rw empty refl
  | inr full ↦ rw full (
      let held : Box = record b {
        lines = b.lines ++ record { seq = b.seq; stream = "stdout"; content = content } ∷ [];
      } in
      elim (Bool-cases (leb log_flush_threshold (length held.lines) || w.second_passed b.trace)) [
        | inl now ↦ rw now (write-agents held.lines w held)
        | inr later ↦ rw later refl
      ])
]

read_events-agents :
    (es : List Event) (last : Option Map) (w : Host) (b : Box)
    → agents (read_events es last w b).1.trace ≡ agents b.trace
unfolding read_events
read_events-agents [] last w b = write-agents b.lines w b
read_events-agents (e ∷ es) last w b = elim (Bool-cases (is_noise e)) [
  | inl noise ↦ rw noise (read_events-agents es last w b)
  | inr shown ↦ rw shown (
      let beat : Box = record b { trace = heartbeat ("agent running: " +++ e.type) ∷ b.trace } in
      let noted : Box = record (add e.content w beat).1 {
        seq = suc (add e.content w beat).1.seq;
      } in
      let kept = add-agents e.content w beat in
      elim (Bool-cases (e.type == "error")) [
        | inl failed ↦ rw failed (write-agents noted.lines w noted ∙ kept)
        | inr fine ↦ rw fine (read_events-agents es _ w noted ∙ kept)
      ])
]

-- The agent has not run, or it has run once: then each repository has a secure URL, and the agent is
-- known.
abbrev pub RunsOnce : ExecuteStepInput → Host → ℕ → ℕ → Type 0
RunsOnce input w before now =
    (now ≡ before)
    ⊎ ((now ≡ suc before)
        × All IsHttps (repos input)
        × (contains w.runners input.step_input.resolved_opts.agent ≡ true))

module _ (input : ExecuteStepInput) (secure : insecure input (repos input) ≡ none) (n : ℕ) where
  -- From a state in which the agent has run so often to one of the two.
  abbrev Leads : {A : Type 0} → Act A → Type 0
  Leads m = (w : Host) (b : Box) → agents b.trace ≡ n → RunsOnce input w n (agents (m w b).1.trace)

  done-Leads :
      {A B : Type 0} (m : Act (Answer A)) (f : A → Act (Answer B))
      → Keeps (λ b. agents b.trace ≡ n) m
      → ((a : A) → Leads (f a))
      → Leads (then_done m f)
  done-Leads {A} m f first rest w b e = go (m w b).0 (m w b).1 (first.kept w b e)
    where
      go :
          (a : Answer A) (b' : Box)
          → agents b'.trace ≡ n
          → RunsOnce input w n (agents (go_on f a w b').1.trace)
      go (done x) b' e' = rest x w b' e'
      go (fails text) b' e' = inl e'

  begun-agents :
      (a : Answer (List Event)) (w : Host) (b : Box)
      → agents (begun input a w b).1.trace ≡ agents b.trace
  begun-agents (done es) w b = read_events-agents es none w b
  begun-agents (fails text) w b = refl

  start-Leads : Leads (then_done (start_agent input) (after_agent input))
  unfolding start_agent
  start-Leads w b e = elim (Bool-cases (contains w.runners input.step_input.resolved_opts.agent)) [
    | inl known ↦
        let t = run_agent (run_opts input w) ∷ b.trace in
        let b' : Box = record b { trace = t } in
        let ran = begun input (w.events t) w b' in
        let rule = agents-rule (suc n) in
        inr (
          rw (start_agent, known)
              ((go_on-Keeps rule (agent_done-Keeps rule input) ran.0).kept w ran.1
                (begun-agents (w.events t) w b' ∙ ap suc e)),
          insecure-none input (repos input) secure,
          known,
        )
    | inr unknown ↦ inl (rw (start_agent, unknown) e)
  ]

  prepared-Leads : Leads (prepared input)
  prepared-Leads w b e =
      let rule = agents-rule n in
      done-Leads (clone_all input.step_input.run_id (repos input)) _
        (clone_all-Keeps rule input.step_input.run_id (repos input))
        (λ u.
          done-Leads (checkout_all input.continuation_context (repos input)) _
            (checkout_all-Keeps rule input.continuation_context (repos input))
            λ v w' b' e'. start-Leads w' _ ((update-Keeps rule StepStatus.running).kept w' _ e'))
        w _ ((banner-Keeps rule).kept w b e)

-- An attempt of `ExecuteStep` runs the agent once or not at all, and only if the URL of each repository
-- begins with `https://` and there is a runner of the agent's name.
pub execute_step-RunsOnce :
    (input : ExecuteStepInput) (w : Host) (b : Box)
    → RunsOnce input w (agents b.trace) (agents (execute_step input w b).1.trace)
unfolding execute_step
execute_step-RunsOnce input w b = go (insecure input (repos input)) refl
  where
    go :
        (o : Option String)
        → insecure input (repos input) ≡ o
        → RunsOnce input w (agents b.trace) (agents (unless_insecure input o w b).1.trace)
    go none secure = prepared-Leads input secure (agents b.trace) w b refl
    go (some url) found = inl refl
