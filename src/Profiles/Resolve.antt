-- ===== src/Profiles/Resolve.antt =====
-- internal/activity/profiles.go: `ResolveAgentProfile`, with the store of
-- internal/activity/profiles_db.go: `GetProfile` and `scanProfile`. Of a row the body is kept.
use fleetlift.Prelude.{String, Option, none, some, if◌then◌else◌, ◌||◌, ◌==◌}
use fleetlift.Prelude.Text.{◌+++◌}
use fleetlift.Model.{AgentProfileBody}
use fleetlift.Profiles.{merge_profiles}

-- What the scan of the one row of a query comes to; `no_rows` is `sql.ErrNoRows`.
pub data Row : Type 0 where
  no_rows : Row
  row : AgentProfileBody → Row
  row_error : String → Row

-- `not_found` is the error that is not retried.
pub data Fetched (A : Type 0) : Type 0 where
  fetched : A → Fetched A
  failed not_found : String → Fetched A

-- `fmt.Errorf("prefix: %w", err)`
abbrev pub because : {A : Type 0} → String → Fetched A → Fetched A
because prefix (fetched a) = fetched a
because prefix (failed e) = failed (prefix +++ ": " +++ e)
because prefix (not_found e) = not_found (prefix +++ ": " +++ e)

infixl 5 ◌>>=◌
abbrev pub ◌>>=◌ : {A B : Type 0} → Fetched A → (A → Fetched B) → Fetched B
fetched a >>= f = f a
failed e >>= f = failed e
not_found e >>= f = not_found e

abbrev scan_profile : Row → Fetched (Option AgentProfileBody)
scan_profile no_rows = fetched none
scan_profile (row p) = fetched (some p)
scan_profile (row_error e) = failed e

-- The query of a team's profile of a name, or of the system's profile of that name; and `%q`.
module _ (query : Option String → String → Row) (quoted : String → String) where
  abbrev system_unless : String → Option AgentProfileBody → Fetched (Option AgentProfileBody)
  system_unless name (some p) = fetched (some p)
  system_unless name none = because "query system profile" (scan_profile (query none name))

  unfoldable pub get_profile : String → String → Fetched (Option AgentProfileBody)
  get_profile team name =
      because "query team profile" (scan_profile (query (some team) name)) >>= system_unless name

  abbrev pub merged_with :
      String → String → Option AgentProfileBody → Option AgentProfileBody → Fetched AgentProfileBody
  merged_with team name baseline (some p) = fetched (merge_profiles baseline (some p))
  merged_with team name baseline none =
      not_found ("agent profile " +++ quoted name +++ " not found for team " +++ team)

  unfoldable pub resolve_agent_profile : String → String → Fetched AgentProfileBody
  resolve_agent_profile team name = do
    baseline ← because "fetch baseline profile" (get_profile team "baseline")
    if name == "" || name == "baseline"
        then fetched (merge_profiles baseline none)
        else because ("fetch profile " +++ quoted name) (get_profile team name)
          >>= merged_with team name baseline
