-- ===== src/Activities/Execute/Numbers.antt =====
-- internal/activity/execute.go and status.go: the numbers of the log lines of one attempt.
use fleetlift.Prelude.{
  ℕ, suc, ◌≤◌, String, ◌≡◌, sym, ap, subst, ◌∙◌, inl, inr, Option, none, some, List, [], ◌∷◌, ◌++◌,
  contains, arith, Bool-cases, Option-cases, if◌then◌else◌, ◌==◌,
}
use mathlib.Core.List.{append-nil}
use fleetlift.Prelude.Text.{◌+++◌}
use fleetlift.Model.{Map}
use fleetlift.Engine.{ExecuteStepInput}
use fleetlift.Activities.Box.{
  Host, Box, LogLine, Event, heartbeat, run_agent, Answer, done, fails, log_line, add,
}
use fleetlift.Activities.Execute.{insecure, prepared, execute_step, repos}
use fleetlift.Activities.Execute.Agent.{is_noise, read_events, begun, start_agent, run_opts}
use fleetlift.Activities.Execute.Kept.{
  Rule, Keeps, after-Keeps, done-Keeps, beat-Keeps, update-Keeps, banner-Keeps, clone_all-Keeps,
  checkout_all-Keeps,
}
use fleetlift.Activities.Execute.Logs.{
  logged, all_lines, line_of, event_lines, read_events-logged, added, flush-seq,
}
use fleetlift.Activities.Execute.Closing.{agent_done-Keeps}
use fleetlift.Model.{StepStatus}

-- The numbers go up from the first and stay below the last.
abbrev pub Ascends : ℕ → List LogLine → ℕ → Type 0
Ascends lo [] hi = lo ≤ hi
Ascends lo (l ∷ ls) hi = (lo ≤ l.seq) × Ascends (suc l.seq) ls hi

Ascends-lower :
    (lo mid hi : ℕ) (ms : List LogLine) → lo ≤ mid → Ascends mid ms hi → Ascends lo ms hi
Ascends-lower lo mid hi [] le above = omega (arith, le, above)
Ascends-lower lo mid hi (m ∷ ms) le above = (omega (arith, le, above.0), above.1)

Ascends-bounds : (lo hi : ℕ) (ls : List LogLine) → Ascends lo ls hi → lo ≤ hi
Ascends-bounds lo hi [] below = below
Ascends-bounds lo hi (l ∷ ls) below =
    omega (arith, below.0, Ascends-bounds (suc l.seq) hi ls below.1)

Ascends-append :
    (lo mid hi : ℕ) (ls ms : List LogLine)
    → Ascends lo ls mid
    → Ascends mid ms hi
    → Ascends lo (ls ++ ms) hi
Ascends-append lo mid hi [] ms below above = Ascends-lower lo mid hi ms below above
Ascends-append lo mid hi (l ∷ ls) ms below above =
    (below.0, Ascends-append (suc l.seq) mid hi ls ms below.1 above)

-- No line waits, and the numbers of the lines that have been written go up and are below the next.
pub record Numbered (b : Box) : Type 0 where
  pub emptied : b.lines ≡ []
  pub ascends : Ascends 0 (logged b.trace) b.seq

log-Numbered :
    (stream content : String) (w : Host) (b : Box)
    → Numbered b
    → Numbered (log_line stream content w b).1
log-Numbered stream content w b n = elim (Bool-cases (content == "")) [
  | inl empty ↦ rw (log_line, empty) n
  | inr full ↦
      rw (log_line, full)
        (record {
          emptied = n.emptied;
          ascends =
              Ascends-append 0 b.seq (suc b.seq) (logged b.trace) _ n.ascends
                (omega arith, omega arith);
        })
]

Numbered-rule : Rule Numbered
Numbered-rule = record {
  execs = λ command dir b n. record { emptied = n.emptied; ascends = n.ascends };
  beats = λ text b n. record { emptied = n.emptied; ascends = n.ascends };
  sets = λ s b n. record { emptied = n.emptied; ascends = n.ascends };
  logs = log-Numbered;
}

line_of-Ascends : (n : ℕ) (content : String) → Ascends n (line_of n content) (suc n)
line_of-Ascends n content = elim (Bool-cases (content == "")) [
  | inl empty ↦ rw empty (omega arith)
  | inr full ↦ rw full (omega arith, omega arith)
]

-- The number of the next line, after the events.
read_events-seq :
    (es : List Event) (last : Option Map) (w : Host) (b : Box)
    → Ascends b.seq (event_lines b.seq es) (read_events es last w b).1.seq
unfolding read_events
read_events-seq [] last w b = omega (arith, flush-seq w b)
read_events-seq (e ∷ es) last w b = elim (Bool-cases (is_noise e)) [
  | inl noise ↦ rw noise (read_events-seq es last w b)
  | inr shown ↦ rw shown (
      let beat : Box = record b { trace = heartbeat ("agent running: " +++ e.type) ∷ b.trace } in
      let counted = (added e.content w beat).1 in
      let noted : Box = record (add e.content w beat).1 {
        seq = suc (add e.content w beat).1.seq;
      } in
      elim (Bool-cases (e.type == "error")) [
        | inl failed ↦ rw failed (
            Ascends-append b.seq (suc b.seq) _ (line_of b.seq e.content) []
              (line_of-Ascends b.seq e.content) (omega (arith, flush-seq w noted, counted)))
        | inr fine ↦ rw fine (
            let next = (if e.type == "complete" then some e.output else last) in
            Ascends-append b.seq (suc b.seq) _ (line_of b.seq e.content)
              (event_lines (suc b.seq) es) (line_of-Ascends b.seq e.content)
              (subst
                (λ n. Ascends (suc n) (event_lines (suc n) es) (read_events es next w noted).1.seq)
                counted (read_events-seq es next w noted)))
      ])
]

read_events-Numbered :
    (es : List Event) (last : Option Map) (w : Host) (b : Box)
    → Numbered b
    → Numbered (read_events es last w b).1
read_events-Numbered es last w b n =
    let (written, emptied) = read_events-logged es last w b in
    record {
      emptied = emptied;
      ascends =
          subst (λ ls. Ascends 0 ls (read_events es last w b).1.seq) (sym written)
            (Ascends-append 0 b.seq (read_events es last w b).1.seq (all_lines b)
              (event_lines b.seq es)
              (subst (λ ls. Ascends 0 ls b.seq)
                (sym (ap (λ ls. logged b.trace ++ ls) n.emptied ∙ append-nil (logged b.trace)))
                n.ascends)
              (read_events-seq es last w b));
    }

started_Numbered :
    (input : ExecuteStepInput) (a : Answer (List Event)) (w : Host) (b : Box)
    → Numbered b
    → Numbered (begun input a w b).1
started_Numbered input (done es) w b n = read_events-Numbered es none w b n
started_Numbered input (fails text) w b n = n

start_Numbered : (input : ExecuteStepInput) → Keeps Numbered (start_agent input)
unfolding start_agent
start_Numbered input = record {
  kept = λ w b n. elim (Bool-cases (contains w.runners input.step_input.resolved_opts.agent)) [
    | inl known ↦
        rw (start_agent, known)
          (started_Numbered input (w.events (run_agent (run_opts input w) ∷ b.trace)) w _
            (record { emptied = n.emptied; ascends = n.ascends }))
    | inr unknown ↦ rw (start_agent, unknown) n
  ];
}

prepared-Numbered : (input : ExecuteStepInput) → Keeps Numbered (prepared input)
prepared-Numbered input =
    let rule = Numbered-rule in
    after-Keeps rule (banner-Keeps rule) (
      done-Keeps rule (clone_all-Keeps rule input.step_input.run_id (repos input)) λ u.
        done-Keeps rule (checkout_all-Keeps rule input.continuation_context (repos input)) λ v.
          after-Keeps rule
            (after-Keeps rule (beat-Keeps rule "running agent")
              (update-Keeps rule StepStatus.running))
            (done-Keeps rule (start_Numbered input) (agent_done-Keeps rule input)))

-- An attempt of `ExecuteStep` writes its log lines with numbers that go up, so none is taken for one that
-- the database has of this attempt; and however it ends, no line waits in the buffer.
pub execute_step-Numbered :
    (input : ExecuteStepInput) (w : Host) (b : Box)
    → Numbered b
    → Numbered (execute_step input w b).1
unfolding execute_step
execute_step-Numbered input w b n = elim (Option-cases (insecure input (repos input))) [
  | inl secure ↦ rw (execute_step, secure) ((prepared-Numbered input).kept w b n)
  | inr url ↦ rw (execute_step, url.1) n
]
