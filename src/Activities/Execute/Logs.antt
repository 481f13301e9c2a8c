-- ===== src/Activities/Execute/Logs.antt =====
-- internal/activity/status.go, `logBuffer`, and the events of the agent: which lines are written.
use fleetlift.Prelude.{
  ℕ, suc, String, ◌≡◌, refl, sym, ap, ◌∙◌, ◌||◌, Option, some, List, [], ◌∷◌, ◌++◌, leb, length,
  Bool-cases, inl, inr, if◌then◌else◌, ◌==◌,
}
use mathlib.Core.List.{append-nil, append_assoc}
use fleetlift.Prelude.Text.{◌+++◌}
use fleetlift.Model.{Map}
use fleetlift.Activities.Box.{
  Host, Box, LogLine, Event, exec, insert_logs, heartbeat, set_status, run_agent, Trace, flush,
  write, add, log_flush_threshold,
}
use fleetlift.Activities.Execute.Agent.{is_noise, read_events}

-- The lines that have been written, in the order of the writes.
abbrev pub logged : Trace → List LogLine
logged [] = []
logged (insert_logs ls ∷ t) = logged t ++ ls
logged (exec c d ∷ t) = logged t
logged (heartbeat s ∷ t) = logged t
logged (set_status s ∷ t) = logged t
logged (run_agent o ∷ t) = logged t

-- With those that wait in the buffer.
abbrev pub all_lines : Box → List LogLine
all_lines b = logged b.trace ++ b.lines

-- The line of a text that is not empty.
abbrev pub line_of : ℕ → String → List LogLine
line_of n content =
    if content == "" then [] else record { seq = n; stream = "stdout"; content = content } ∷ []

-- The lines of the events, up to the first error.
abbrev pub event_lines : ℕ → List Event → List LogLine
event_lines n [] = []
event_lines n (e ∷ es) =
    if is_noise e
    then event_lines n es
    else line_of n e.content ++ (if e.type == "error" then [] else event_lines (suc n) es)

flushed :
    (w : Host) (b : Box) → (logged (flush w b).1.trace ≡ all_lines b) × ((flush w b).1.lines ≡ [])
flushed w b = go b.lines refl
  where
    go :
        (ls : List LogLine)
        → b.lines ≡ ls
        → (logged (write ls w b).1.trace ≡ logged b.trace ++ ls) × ((write ls w b).1.lines ≡ [])
    go [] e = (sym (append-nil (logged b.trace)), e)
    go (l ∷ ls) e = (refl, refl)

flush-all_lines : (w : Host) (b : Box) → all_lines (flush w b).1 ≡ all_lines b
flush-all_lines w b =
    let (kept, emptied) = flushed w b in
    ap (λ ls. logged (flush w b).1.trace ++ ls) emptied
    ∙ append-nil (logged (flush w b).1.trace)
    ∙ kept

pub flush-seq : (w : Host) (b : Box) → (flush w b).1.seq ≡ b.seq
flush-seq w b = go b.lines
  where
    go : (ls : List LogLine) → (write ls w b).1.seq ≡ b.seq
    go [] = refl
    go (l ∷ ls) = refl

-- A line is kept, written or in the buffer, whether the buffer is written now or not.
pub added :
    (content : String) (w : Host) (b : Box)
    → (all_lines (add content w b).1 ≡ all_lines b ++ line_of b.seq content)
      × ((add content w b).1.seq ≡ b.seq)
added content w b = elim (Bool-cases (content == "")) [
  | inl empty ↦ rw empty (sym (append-nil (all_lines b)), refl)
  | inr full ↦ rw full (
      let one = record { seq = b.seq; stream = "stdout"; content = content } ∷ [] in
      let held : Box = record b { lines = b.lines ++ one } in
      elim (Bool-cases (leb log_flush_threshold (length held.lines) || w.second_passed b.trace)) [
        | inl now ↦ rw now (
          flush-all_lines w held ∙ sym (append_assoc (logged b.trace) b.lines one),
          flush-seq w held,
        )
        | inr later ↦ rw later (sym (append_assoc (logged b.trace) b.lines one), refl)
      ])
]

pub read_events-logged :
    (es : List Event) (last : Option Map) (w : Host) (b : Box)
    → (logged (read_events es last w b).1.trace ≡ all_lines b ++ event_lines b.seq es)
      × ((read_events es last w b).1.lines ≡ [])
unfolding read_events
read_events-logged [] last w b =
    let (kept, emptied) = flushed w b in (kept ∙ sym (append-nil (all_lines b)), emptied)
read_events-logged (e ∷ es) last w b = elim (Bool-cases (is_noise e)) [
  | inl noise ↦ rw noise (read_events-logged es last w b)
  | inr shown ↦ rw shown (
      let beat : Box = record b { trace = heartbeat ("agent running: " +++ e.type) ∷ b.trace } in
      let (kept, counted) = added e.content w beat in
      let noted : Box = record (add e.content w beat).1 {
        seq = suc (add e.content w beat).1.seq;
      } in
      elim (Bool-cases (e.type == "error")) [
        | inl failed ↦ rw failed (
            let (written, emptied) = flushed w noted in
            (
              written
                  ∙ kept
                  ∙ ap (λ ls. all_lines b ++ ls) (sym (append-nil (line_of b.seq e.content))),
              emptied,
            ))
        | inr fine ↦ rw fine (
            let next = (if e.type == "complete" then some e.output else last) in
            let (written, emptied) = read_events-logged es next w noted in
            (
              written
                  ∙ ap (λ n. all_lines noted ++ event_lines (suc n) es) counted
                  ∙ ap (λ ls. ls ++ event_lines (suc b.seq) es) kept
                  ∙ append_assoc (all_lines b) (line_of b.seq e.content)
                      (event_lines (suc b.seq) es),
              emptied,
            ))
      ])
]
