-- ===== src/Profiles/Layers.antt =====
-- internal/activity/profiles.go: what a resolved profile holds, and when there is none.
use fleetlift.Prelude.{
  String, ◌≡◌, refl, false, Option, none, some, Bool-cases, inl, inr, if◌then◌else◌, ◌||◌, ◌==◌,
  sym, subst, ◌⊎◌,
}
use fleetlift.Prelude.Text.{◌+++◌}
use fleetlift.Model.{AgentProfileBody}
use fleetlift.Profiles.{
  plugin_key, skill_key, mcp_key, or_else, last_of, body_plugins, body_skills, body_mcps,
  merge_profiles, last_of-merge_profiles,
}
use fleetlift.Profiles.Resolve.{
  Row, no_rows, row, row_error, Fetched, fetched, failed, not_found, get_profile, merged_with,
  because, ◌>>=◌, resolve_agent_profile,
}

abbrev row_body : Row → Option AgentProfileBody
row_body (row p) = some p
row_body no_rows = none
row_body (row_error e) = none

-- Each part's entry of a key comes from the upper profile, else from the lower one.
abbrev pub LiesOver : (upper lower : Option AgentProfileBody) → AgentProfileBody → Type 0
LiesOver upper lower body =
    (k : String)
    → (last_of plugin_key body.plugins k
        ≡ or_else (last_of plugin_key (body_plugins upper) k)
            (last_of plugin_key (body_plugins lower) k))
      × (last_of skill_key body.skills k
          ≡ or_else (last_of skill_key (body_skills upper) k)
              (last_of skill_key (body_skills lower) k))
      × (last_of mcp_key body.mcps k
          ≡ or_else (last_of mcp_key (body_mcps upper) k) (last_of mcp_key (body_mcps lower) k))

pub data Fails : Row → Type 0 where
  fails : (e : String) → Fails (row_error e)

module _ (query : Option String → String → Row) (quoted : String → String) where
  -- The profile of a name that a team sees: its own, or the system's.
  abbrev pub seen : String → String → Option AgentProfileBody
  seen team name = or_else (row_body (query (some team) name)) (row_body (query none name))

  -- The workflow's profile, where it names one besides the baseline.
  abbrev pub chosen : String → String → Option AgentProfileBody
  chosen team name = if name == "" || name == "baseline" then none else seen team name

  -- A query of the team's or of the system's profile of the name fails.
  abbrev pub Broken : String → String → Type 0
  Broken team name = Fails (query (some team) name) ⊎ Fails (query none name)

  abbrev pub IsNamed : String → Type 0
  IsNamed name = (name == "" || name == "baseline") ≡ false

  abbrev pub Resolves : String → String → Fetched AgentProfileBody → Type 0
  Resolves team name (fetched body) = LiesOver (chosen team name) (seen team "baseline") body
  Resolves team name (failed e) = Broken team "baseline" ⊎ (IsNamed name × Broken team name)
  Resolves team name (not_found e) = IsNamed name × (seen team name ≡ none)

  abbrev Told : String → String → Fetched (Option AgentProfileBody) → Type 0
  Told team name (fetched p) = p ≡ seen team name
  Told team name (failed e) = Broken team name
  Told team name (not_found e) = ⊥

  told :
      (team n : String) (a b : Row)
      → query (some team) n ≡ a
      → query none n ≡ b
      → Told team n (get_profile query quoted team n)
  unfolding get_profile
  told team n (row p) b own system = rw own (rw own refl)
  told team n (row_error e) b own system = rw own (inl (rw own (fails e)))
  told team n no_rows (row p) own system = rw (own, system) (rw (own, system) refl)
  told team n no_rows (row_error e) own system = rw (own, system) (inr (rw system (fails e)))
  told team n no_rows no_rows own system = rw (own, system) (rw (own, system) refl)

  merged :
      (team name : String) (top : Option AgentProfileBody)
      → chosen team name ≡ top
      → LiesOver
          (chosen team name)
          (seen team "baseline")
          (merge_profiles (seen team "baseline") top)
  merged team name top h k =
      subst (λ t. LiesOver t (seen team "baseline") (merge_profiles (seen team "baseline") top))
        (sym h)
        (λ n. let m = last_of-merge_profiles (seen team "baseline") top n in (m.0, m.1, m.2)) k

  choose :
      (team name : String) (p : Option AgentProfileBody)
      → p ≡ seen team name
      → IsNamed name
      → Resolves team name (merged_with query quoted team name (seen team "baseline") p)
  choose team name (some p) h named = merged team name (some p) (rw (named) (sym h))
  choose team name none h named = (named, sym h)

  choose_from :
      (team name : String) (r : Fetched (Option AgentProfileBody))
      → Told team name r
      → IsNamed name
      → Resolves team name (
          because ("fetch profile " +++ quoted name) r
          >>= merged_with query quoted team name (seen team "baseline"))
  choose_from team name (fetched p) h named = choose team name p h named
  choose_from team name (failed e) h named = inr (named, h)
  choose_from team name (not_found e) h named = absurd h

  resolved :
      (team name : String) (r : Fetched (Option AgentProfileBody))
      → Told team "baseline" r
      → Resolves team name (
          because "fetch baseline profile" r >>= λ baseline.
          if name == "" || name == "baseline"
          then fetched (merge_profiles baseline none)
          else because ("fetch profile " +++ quoted name) (get_profile query quoted team name)
            >>= merged_with query quoted team name baseline)
  resolved team name (fetched p) h =
      subst
        (λ b. Resolves team name (
          if name == "" || name == "baseline"
          then fetched (merge_profiles b none)
          else because ("fetch profile " +++ quoted name) (get_profile query quoted team name)
            >>= merged_with query quoted team name b))
        (sym h)
        (elim (Bool-cases (name == "" || name == "baseline")) [
          | inl unnamed ↦ rw unnamed (merged team name none (rw unnamed refl))
          | inr named ↦ rw named (
              choose_from team name (get_profile query quoted team name)
                (told team name (query (some team) name) (query none name) refl refl) named)
        ])
  resolved team name (failed e) h = inl h
  resolved team name (not_found e) h = absurd h

  -- A resolved profile's last plugin, skill and MCP server of each key is that of the named profile
  -- that the team sees, its own before the system's, and that of the baseline that it sees where
  -- the named one has none, or where the name is empty or that of the baseline. A profile is
  -- reported as not found only where one is named and the team sees none of that name, and any
  -- other failure is that of a query of the baseline or of the named profile.
  pub resolve_agent_profile-Resolves :
      (team name : String) → Resolves team name (resolve_agent_profile query quoted team name)
  unfolding resolve_agent_profile
  resolve_agent_profile-Resolves team name =
      resolved team name (get_profile query quoted team "baseline")
        (told team "baseline" (query (some team) "baseline") (query none "baseline") refl refl)
