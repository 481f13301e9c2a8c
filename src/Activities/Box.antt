-- ===== src/Activities/Box.antt =====
-- internal/activity: what the activities do to the sandbox and the database, and what they rely on
-- these for. The variables `seq` and `buf` of `ExecuteStep` are part of the state.
use fleetlift.Prelude.{
  ℕ, suc, String, Bool, Option, none, some, List, [], ◌∷◌, ◌++◌, leb, length, ◌||◌, if◌then◌else◌,
  ◌==◌,
}
use fleetlift.Prelude.Text.{◌+++◌}
use fleetlift.Model.{Value, Map, StepStatus}

-- `logLine`
pub record LogLine : Type 0 where
  pub seq : ℕ
  pub stream : String
  pub content : String

-- `agent.Event` and `agent.RunOpts`; the environment is never set.
pub record Event : Type 0 where
  pub type : String
  pub content : String
  pub output : Map

pub record RunOpts : Type 0 where
  pub prompt : String
  pub work_dir : String
  pub max_turns : ℕ
  pub model : String
  pub eval_plugin_dirs : List String

pub data Effect : Type 0 where
  exec : (command dir : String) → Effect
  insert_logs : List LogLine → Effect
  heartbeat : String → Effect
  set_status : StepStatus → Effect
  run_agent : RunOpts → Effect

-- The effects so far, the latest first.
abbrev pub Trace : Type 0
Trace = List Effect

pub record ExecAnswer : Type 0 where
  pub stdout : String
  pub stderr : String
  pub error : Option String

-- The tree of a jsonschema.ValidationError.
mutual
  pub data Invalid : Type 0 where
    invalid : (location message : String) → Causes → Invalid

  pub data Causes : Type 0 where
    no_causes : Causes
    cause : Invalid → Causes → Causes

-- What `compileOutputSchema` and `Validate` come to.
pub data Verdict : Type 0 where
  valid : Verdict
  bad_schema other_error : String → Verdict
  violates : Invalid → (text : String) → Verdict

pub data Answer (A : Type 0) : Type 0 where
  done : A → Answer A
  fails : (text : String) → Answer A

-- The sandbox, the agents, the database and the libraries. An answer may depend on all that was done.
pub record Host : Type 0 where
  pub attempt : ℕ
  pub answer : Trace → ExecAnswer
  pub runners : List String
  pub events : Trace → Answer (List Event)
  pub second_passed : Trace → Bool
  pub set_fails : Trace → Option String
  pub status_now : Trace → Option String
  pub request : Trace → String × String
  pub checkpoint : Trace → String × String
  -- `%q`, json.Marshal, json.Unmarshal into a map, and the matches of the two expressions
  pub quoted : String → String
  pub marshal : Value → String
  pub unmarshal : String → Option Map
  pub fenced : String → List String
  pub bare : String → List String
  pub verdict : Value → Map → Verdict
  -- of a printed float64: whether it is zero, `%d` of its `int`, and its count of cost units
  pub is_zero : String → Bool
  pub as_int : String → String
  pub cost : String → ℕ

pub record Box : Type 0 where
  pub trace : Trace
  pub seq : ℕ
  pub lines : List LogLine

abbrev pub Act : Type 0 → Type 0
Act A = Host → Box → A × Box

infixl 5 ◌>>=◌ ◌>>◌
abbrev pub ◌>>=◌ : {A B : Type 0} → Act A → (A → Act B) → Act B
◌>>=◌ m f w b = let (a, b') = m w b in f a w b'

abbrev pub ◌>>◌ : {A B : Type 0} → Act A → Act B → Act B
m >> n = m >>= λ _. n

abbrev pub pure : {A : Type 0} → A → Act A
pure a w b = (a, b)

abbrev pub perform : Effect → Act Unit
perform e w b = (tt, record b { trace = e ∷ b.trace })

-- `sb.Exec`
abbrev pub exec_in : String → String → Act ExecAnswer
exec_in command dir w b = let t = exec command dir ∷ b.trace in (w.answer t, record b { trace = t })

-- `logLine` of `ExecuteStep`: written at once, and an error of the database is not looked at.
abbrev pub log_line : String → String → Act Unit
log_line stream content w b = if content == "" then (tt, b) else (
  tt,
  record {
    trace = insert_logs (record { seq = b.seq; stream = stream; content = content } ∷ []) ∷ b.trace;
    seq = suc b.seq;
    lines = b.lines;
  },
)

-- `updateStepStatus`
abbrev pub update_step_status : StepStatus → Act Unit
update_step_status status w b =
    let t = set_status status ∷ b.trace in
    elim (w.set_fails t) [
      | none ↦ (tt, record b { trace = t })
      | some text ↦ (tt, record b { trace = heartbeat ("status update failed: " +++ text) ∷ t })
    ]

abbrev pub log_flush_threshold : ℕ
log_flush_threshold = 50

-- `flush` of `logBuffer`, with what is in it.
abbrev pub write : List LogLine → Act Unit
write [] w b = (tt, b)
write (l ∷ ls) w b = (tt, record b { trace = insert_logs (l ∷ ls) ∷ b.trace; lines = [] })

abbrev pub flush : Act Unit
flush w b = write b.lines w b

-- `add` of `logBuffer`, with the stream of `ExecuteStep`'s buffer
abbrev pub add : String → Act Unit
add content w b =
    if content == ""
    then (tt, b)
    else (let lines =
          b.lines ++ record { seq = b.seq; stream = "stdout"; content = content } ∷ [] in
        let b' = record b { lines = lines } in
        if leb log_flush_threshold (length lines) || w.second_passed b.trace
        then flush w b'
        else (tt, b'))

-- `seq++`
abbrev pub next_seq : Act Unit
next_seq w b = (tt, record b { seq = suc b.seq })
