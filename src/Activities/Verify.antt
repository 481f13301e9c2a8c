-- ===== src/Activities/Verify.antt =====
-- internal/activity/verify.go: `VerifyStep`.
use fleetlift.Prelude.{
  String, ◌≡◌, refl, ap, ◌∙◌, ◌↔◌, Option, none, some, List, [], ◌∷◌, ◌==◌, if◌then◌else◌,
  Option-cases, inl, inr,
}
use fleetlift.Prelude.Text.{◌+++◌, join}
use fleetlift.Model.{Value, Values, StepStatus, as_string}
use fleetlift.Activities.Box.{
  Host, Box, Trace, Act, Answer, done, fails, ExecAnswer, exec, heartbeat, perform, exec_in,
  set_status, update_step_status, pure, ◌>>=◌, ◌>>◌,
}

-- The texts of an array.
abbrev pub texts_of : Values → List String
texts_of Values.nil = []
texts_of (Values.cons v vs) = elim (as_string v) [ none ↦ texts_of vs | some s ↦ s ∷ texts_of vs ]

-- `parseVerifiers`
abbrev pub parse_verifiers : Value → List String
parse_verifiers (Value.arr vs) = texts_of vs
parse_verifiers (Value.str s) = if s == "" then [] else s ∷ []
parse_verifiers _ = []

abbrev pub failure_text : Host → String → ExecAnswer → String → String
failure_text w command a text =
    "verify "
    +++ w.quoted command
    +++ ": "
    +++ text
    +++ " (stdout: "
    +++ a.stdout
    +++ ", stderr: "
    +++ a.stderr
    +++ ")"

abbrev pub with_failure : Host → String → ExecAnswer → List String → List String
with_failure w command a rest = elim a.error [
  | none ↦ rest
  | some text ↦ failure_text w command a text ∷ rest
]

-- The loop over the commands: each is run, also after one has failed.
unfoldable pub run_verifiers : List String → Act (List String)
run_verifiers [] = pure []
run_verifiers (command ∷ commands) =
    perform (heartbeat ("verifying: " +++ command))
    >> (exec_in command "/workspace" >>= λ a.
        run_verifiers commands >>= λ rest w b. (with_failure w command a rest, b))

abbrev pub verdict_of : List String → Answer Unit
verdict_of [] = done tt
verdict_of (f ∷ fs) = fails ("verification failed:\n" +++ join "\n" (f ∷ fs))

abbrev pub verify_commands : List String → Act (Answer Unit)
verify_commands [] = pure (done tt)
verify_commands (command ∷ commands) =
    update_step_status StepStatus.verifying
    >> (run_verifiers (command ∷ commands) >>= λ failures. pure (verdict_of failures))

-- `VerifyStep`; `none` is a nil value.
unfoldable pub verify_step : Option Value → Act (Answer Unit)
unfolding run_verifiers join
verify_step none = pure (done tt)
verify_step (some v) = verify_commands (parse_verifiers v)

-- Each command, run after those before it, has no error.
abbrev pub Pass : Host → Trace → List String → Type 0
Pass w t [] = Unit
Pass w t (c ∷ cs) =
    let t' = exec c "/workspace" ∷ heartbeat ("verifying: " +++ c) ∷ t in
    ((w.answer t').error ≡ none) × Pass w t' cs

run_verifiers-Pass :
    (cs : List String) (w : Host) (b : Box) → ((run_verifiers cs w b).0 ≡ []) ↔ Pass w b.trace cs
unfolding run_verifiers
run_verifiers-Pass [] w b = (λ e. tt, λ t. refl)
run_verifiers-Pass (c ∷ cs) w b =
    let t' = exec c "/workspace" ∷ heartbeat ("verifying: " +++ c) ∷ b.trace in
    let rest = run_verifiers-Pass cs w (record b { trace = t' }) in
    elim (Option-cases (w.answer t').error) [
      | inl ran ↦ rw ran (λ e. (refl, rest.0 e), λ p. rest.1 p.1)
      | inr ill ↦ rw ill.1 (λ e. cc, λ p. cc (p.0))
    ]

verdict_of-done : (fs : List String) → (verdict_of fs ≡ done tt) ↔ (fs ≡ [])
verdict_of-done [] = (λ e. refl, λ e. refl)
verdict_of-done (f ∷ fs) = (λ e. cc, λ e. cc)

-- The commands that were run, the latest first, and those of a list run after them.
abbrev pub commands_of : Trace → List String
commands_of [] = []
commands_of (exec command dir ∷ t) = command ∷ commands_of t
commands_of (e ∷ t) = commands_of t

abbrev pub after : List String → List String → List String
after ran [] = ran
after ran (c ∷ cs) = after (c ∷ ran) cs

run_verifiers-commands :
    (cs : List String) (w : Host) (b : Box)
    → commands_of (run_verifiers cs w b).1.trace ≡ after (commands_of b.trace) cs
unfolding run_verifiers
run_verifiers-commands [] w b = refl
run_verifiers-commands (c ∷ cs) w b = run_verifiers-commands cs w _

update-commands :
    (s : StepStatus) (w : Host) (b : Box)
    → commands_of (update_step_status s w b).1.trace ≡ commands_of b.trace
update-commands s w b = elim (Option-cases (w.set_fails (set_status s ∷ b.trace))) [
  | inl fine ↦ rw (commands_of, update_step_status, fine) refl
  | inr ill ↦ rw (commands_of, update_step_status, ill.1) refl
]

-- `VerifyStep` has no error exactly if each of its commands has none, and it runs all of them, in
-- order, and no other command, also after one has failed.
pub verify_step-done :
    (v : Value) (w : Host) (b : Box)
    → (((verify_step (some v) w b).0 ≡ done tt)
        ↔ Pass w (update_step_status StepStatus.verifying w b).1.trace (parse_verifiers v))
      × (commands_of (verify_step (some v) w b).1.trace
          ≡ after (commands_of b.trace) (parse_verifiers v))
unfolding verify_step
verify_step-done v w b = go (parse_verifiers v)
  where
    go :
        (cs : List String)
        → (((verify_commands cs w b).0 ≡ done tt)
            ↔ Pass w (update_step_status StepStatus.verifying w b).1.trace cs)
          × (commands_of (verify_commands cs w b).1.trace ≡ after (commands_of b.trace) cs)
    go [] = ((λ e. tt, λ t. refl), refl)
    go (c ∷ cs) =
        let b' = (update_step_status StepStatus.verifying w b).1 in
        let ran = run_verifiers-Pass (c ∷ cs) w b' in
        let told = verdict_of-done (run_verifiers (c ∷ cs) w b').0 in
        (
          (λ e. ran.0 (told.0 e), λ p. told.1 (ran.1 p)),
          run_verifiers-commands (c ∷ cs) w b'
              ∙ ap (λ ran. after ran (c ∷ cs)) (update-commands StepStatus.verifying w b),
        )
