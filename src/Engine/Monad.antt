-- ===== src/Engine/Monad.antt =====
-- The statements of a workflow, in sequence.
use fleetlift.Prelude.{String, Bool, List}
use mathlib.Core.List.{◌∷◌}
use fleetlift.Model.{Map, StepResult, AgentProfileBody}
use fleetlift.Engine.Calls.{Activity}
use fleetlift.Engine.Answers.{Result, Run}

infixl 5 ◌>>=◌ ◌>>◌
abbrev pub ◌>>=◌ : {A B : Type 0} → Run A → (A → Run B) → Run B
◌>>=◌ m f w h = let (a, h') = m w h in f a w h'

abbrev pub ◌>>◌ : {A B : Type 0} → Run A → Run B → Run B
m >> n = m >>= λ _. n

abbrev pub pure : {A : Type 0} → A → Run A
pure a w h = (a, h)

-- `workflow.ExecuteActivity(...).Get(ctx, &x)`, by what it returns.
abbrev pub call : Activity → Run (Result String)
call a w h = (w.reply (a ∷ h), a ∷ h)

abbrev pub call_result : Activity → Run (Result StepResult)
call_result a w h = (w.result (a ∷ h), a ∷ h)

abbrev pub call_action : Activity → Run (Result Map)
call_action a w h = (w.action (a ∷ h), a ∷ h)

abbrev pub call_dirs : Activity → Run (Result (List String))
call_dirs a w h = (w.dirs (a ∷ h), a ∷ h)

abbrev pub call_profile : Activity → Run (Result AgentProfileBody)
call_profile a w h = (w.profile (a ∷ h), a ∷ h)

-- `ctx.Err() != nil`
abbrev pub is_canceled : Run Bool
is_canceled w h = (w.canceled h, h)
