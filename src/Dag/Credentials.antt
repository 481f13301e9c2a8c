-- ===== src/Dag/Credentials.antt =====
-- internal/workflow/dag.go: the names that the credential preflight asks for.
use fleetlift.Prelude.{
  String, ◌≡◌, refl, Bool, false, ◌||◌, Option, none, some, List, [], ◌∷◌, ◌++◌, contains,
  contains-append, IsDistinct, arith, eq_iff, Bool-cases, inl, inr,
}
use fleetlift.Prelude.Sort.Laws.{contains-sort_by, sort_by-IsDistinct}
use fleetlift.Model.{StepDef, ExecutionDef, ActionDef, McpConfig, AgentProfileBody}
use fleetlift.Dag.Workflow.{
  add_new, step_credentials, steps_credentials, mcp_credentials, profile_mcps, all_credentials,
}

contains-add_new :
    (seen ns : List String) (n : String)
    → contains (add_new seen ns) n ≡ (contains seen n || contains ns n)
unfolding add_new
contains-add_new seen [] n = ground arith
contains-add_new seen (m ∷ ns) n = elim (Bool-cases (contains seen m)) [
  | inl old ↦ rw old (ground (arith, old, eq_iff m n, contains-add_new seen ns n))
  | inr new ↦
      rw new
        (ground (arith, contains-append seen (m ∷ []) n, contains-add_new (seen ++ m ∷ []) ns n))
]

snoc-IsDistinct :
    (xs : List String) (x : String)
    → contains xs x ≡ false
    → IsDistinct xs
    → IsDistinct (xs ++ x ∷ [])
snoc-IsDistinct [] x new d = (refl, tt)
snoc-IsDistinct (y ∷ ys) x new d =
    ground (arith, eq_iff x y, eq_iff y x, contains-append ys (x ∷ []) y, snoc-IsDistinct ys x)

add_new-IsDistinct : (seen ns : List String) → IsDistinct seen → IsDistinct (add_new seen ns)
unfolding add_new
add_new-IsDistinct seen [] d = d
add_new-IsDistinct seen (m ∷ ns) d = elim (Bool-cases (contains seen m)) [
  | inl old ↦ rw old (add_new-IsDistinct seen ns d)
  | inr new ↦ rw new (add_new-IsDistinct (seen ++ m ∷ []) ns (snoc-IsDistinct seen m new d))
]

-- Whether a step of the list asks for the name, and whether an MCP server of the list does.
abbrev pub asked_by_execution : Option ExecutionDef → String → Bool
asked_by_execution none n = false
asked_by_execution (some e) n = contains e.credentials n

abbrev pub asked_by_action : Option ActionDef → String → Bool
asked_by_action none n = false
asked_by_action (some a) n = contains a.credentials n

abbrev pub asked_by_steps : List StepDef → String → Bool
asked_by_steps [] n = false
asked_by_steps (s ∷ ss) n =
    asked_by_execution s.execution n || asked_by_action s.action n || asked_by_steps ss n

abbrev pub asked_by_mcps : List McpConfig → String → Bool
asked_by_mcps [] n = false
asked_by_mcps (m ∷ ms) n = contains m.credentials n || asked_by_mcps ms n

abbrev pub asked_by_profile : Option AgentProfileBody → String → Bool
asked_by_profile none n = false
asked_by_profile (some p) n = asked_by_mcps p.mcps n

contains-execution :
    (o : Option ExecutionDef) (n : String)
    → contains (elim o [ none ↦ [] | some e ↦ e.credentials ]) n ≡ asked_by_execution o n
contains-execution none n = refl
contains-execution (some e) n = refl

contains-action :
    (o : Option ActionDef) (n : String)
    → contains (elim o [ none ↦ [] | some a ↦ a.credentials ]) n ≡ asked_by_action o n
contains-action none n = refl
contains-action (some a) n = refl

contains-profile :
    (o : Option AgentProfileBody) (n : String)
    → asked_by_mcps (profile_mcps o) n ≡ asked_by_profile o n
contains-profile none n = refl
contains-profile (some p) n = refl

contains-step_credentials :
    (s : StepDef) (n : String)
    → contains (step_credentials s) n
      ≡ (asked_by_execution s.execution n || asked_by_action s.action n)
contains-step_credentials s n =
    let e = elim s.execution as (λ o. List String) [ none ↦ [] | some e ↦ e.credentials ] in
    let a = elim s.action as (λ o. List String) [ none ↦ [] | some a ↦ a.credentials ] in
    rw (contains-append e a n, contains-execution s.execution n, contains-action s.action n) refl

contains-steps :
    (seen : List String) (steps : List StepDef) (n : String)
    → contains (steps_credentials seen steps) n ≡ (contains seen n || asked_by_steps steps n)
unfolding steps_credentials
contains-steps seen [] n = ground arith
contains-steps seen (s ∷ ss) n = ground (
  arith,
  contains-steps (add_new seen (step_credentials s)) ss n,
  contains-add_new seen (step_credentials s) n,
  contains-step_credentials s n,
)

contains-mcps :
    (seen : List String) (mcps : List McpConfig) (n : String)
    → contains (mcp_credentials seen mcps) n ≡ (contains seen n || asked_by_mcps mcps n)
unfolding mcp_credentials
contains-mcps seen [] n = ground arith
contains-mcps seen (m ∷ ms) n =
    ground (
      arith,
      contains-mcps (add_new seen m.credentials) ms n,
      contains-add_new seen m.credentials n,
    )

steps-IsDistinct :
    (seen : List String) (steps : List StepDef)
    → IsDistinct seen
    → IsDistinct (steps_credentials seen steps)
unfolding steps_credentials
steps-IsDistinct seen [] d = d
steps-IsDistinct seen (s ∷ ss) d =
    steps-IsDistinct (add_new seen (step_credentials s)) ss
      (add_new-IsDistinct seen (step_credentials s) d)

mcps-IsDistinct :
    (seen : List String) (mcps : List McpConfig)
    → IsDistinct seen
    → IsDistinct (mcp_credentials seen mcps)
unfolding mcp_credentials
mcps-IsDistinct seen [] d = d
mcps-IsDistinct seen (m ∷ ms) d =
    mcps-IsDistinct (add_new seen m.credentials) ms (add_new-IsDistinct seen m.credentials d)

-- The credential preflight asks for exactly the names that a step's execution or action or an MCP
-- server of the profile declares, each once.
pub contains-all_credentials :
    (steps : List StepDef) (profile : Option AgentProfileBody)
    → ((n : String)
        → contains (all_credentials steps profile) n
          ≡ (asked_by_steps steps n || asked_by_profile profile n))
      × IsDistinct (all_credentials steps profile)
unfolding all_credentials
contains-all_credentials steps profile = (
  λ n. ground (
    arith,
    contains-sort_by (mcp_credentials (steps_credentials [] steps) (profile_mcps profile)) n,
    contains-mcps (steps_credentials [] steps) (profile_mcps profile) n,
    contains-steps [] steps n,
    contains-profile profile n,
  ),
  sort_by-IsDistinct _ (mcps-IsDistinct _ (profile_mcps profile) (steps-IsDistinct [] steps tt)),
)
