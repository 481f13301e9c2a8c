-- ===== src/Profiles.antt =====
-- internal/model/agent_profile.go: `MergeProfiles`. The maps `seen`, `seenS` and `seenM` hold the
-- place of the last entry of each key; here that place is found again in the list.
pub mod Resolve
pub mod Layers
use fleetlift.Prelude.{
  String, ◌≡◌, refl, sym, ap, ◌∙◌, true, false, Option, none, some, List, [], ◌∷◌, ◌++◌, contains,
  arith, eq_iff, Bool-cases, inl, inr, if◌then◌else◌, ◌==◌,
}
use fleetlift.Prelude.Text.{◌+++◌}
use fleetlift.Model.{PluginSource, SkillSource, McpConfig, AgentProfileBody}

-- `DeduplicationKey` of the two kinds of source.
abbrev pub plugin_key : PluginSource → String
plugin_key p = if p.github_url == "" then "plugin:" +++ p.plugin else "url:" +++ p.github_url

abbrev pub skill_key : SkillSource → String
skill_key s = if s.github_url == "" then "skill:" +++ s.skill else "url:" +++ s.github_url

abbrev pub or_else {ℓ} : {A : Type ℓ} → Option A → Option A → Option A
or_else none o = o
or_else (some a) o = some a

module _ {ℓ} {A : Type ℓ} (key : A → String) where
  abbrev pub keys_of : List A → List String
  keys_of [] = []
  keys_of (a ∷ rest) = key a ∷ keys_of rest

  -- `result[i] = a`, where `i` is the place of the last entry of its key.
  unfoldable replace_last : A → List A → List A
  replace_last a [] = []
  replace_last a (b ∷ bs) =
      let rest = replace_last a bs in
      if contains (keys_of bs) (key a) then b ∷ rest else if key b == key a then a ∷ bs else b ∷ bs

  -- An entry of the workflow's profile replaces the entry of its key, or comes last.
  abbrev merge_one : List A → A → List A
  merge_one merged a =
      if contains (keys_of merged) (key a) then replace_last a merged else merged ++ a ∷ []

  unfoldable pub merge : List A → List A → List A
  unfolding replace_last
  merge merged [] = merged
  merge merged (a ∷ rest) = merge (merge_one merged a) rest

  -- The last entry of a key.
  abbrev pub last_of : List A → String → Option A
  last_of [] n = none
  last_of (a ∷ rest) n = or_else (last_of rest n) (if key a == n then some a else none)

  last_of-none : (xs : List A) (n : String) → contains (keys_of xs) n ≡ false → last_of xs n ≡ none
  last_of-none [] n h = refl
  last_of-none (x ∷ xs) n h = ground (arith, h, last_of-none xs n)

  last_of-append :
      (xs : List A) (a : A) (n : String)
      → last_of (xs ++ a ∷ []) n ≡ (if key a == n then some a else last_of xs n)
  last_of-append [] a n = ground arith
  last_of-append (x ∷ xs) a n = ground (arith, last_of-append xs a n)

  last_of-replace_last :
      (a : A) (bs : List A) (n : String)
      → contains (keys_of bs) (key a) ≡ true
      → last_of (replace_last a bs) n ≡ (if key a == n then some a else last_of bs n)
  unfolding replace_last
  last_of-replace_last a [] n h = cc
  last_of-replace_last a (b ∷ bs) n h = elim (Bool-cases (contains (keys_of bs) (key a))) [
    | inl later ↦ elim (Bool-cases (key a == n)) [
      | inl same ↦ rw (later, last_of-replace_last a bs n later, same) refl
      | inr other ↦ rw (later, last_of-replace_last a bs n later, other) refl
    ]
    | inr absent ↦
        let here : (key b == key a) ≡ true = ground (arith, h, absent) in
        elim (Bool-cases (key a == n)) [
          | inl same ↦
              rw (absent, here, same, last_of-none bs n (rw ((eq_iff (key a) n).0 same) at absent))
                refl
          | inr other ↦ rw (absent, here, other, (eq_iff (key b) (key a)).0 here, other) refl
        ]
  ]

  last_of-merge_one :
      (merged : List A) (a : A) (n : String)
      → last_of (merge_one merged a) n ≡ (if key a == n then some a else last_of merged n)
  last_of-merge_one merged a n = elim (Bool-cases (contains (keys_of merged) (key a))) [
    | inl old ↦ rw old (last_of-replace_last a merged n old)
    | inr new ↦ rw new (last_of-append merged a n)
  ]

  last_of-merge :
      (merged over : List A) (n : String)
      → last_of (merge merged over) n ≡ or_else (last_of over n) (last_of merged n)
  unfolding merge
  last_of-merge merged [] n = refl
  last_of-merge merged (a ∷ rest) n =
      ground (arith, last_of-merge (merge_one merged a) rest n, last_of-merge_one merged a n)

-- The keys that are not there yet come after those that are, in order.
abbrev pub with_new : List String → List String → List String
with_new seen [] = seen
with_new seen (k ∷ ks) = with_new (if contains seen k then seen else seen ++ k ∷ []) ks

module _ {ℓ} {A : Type ℓ} (key : A → String) where
  keys_of-append : (xs : List A) (a : A) → keys_of key (xs ++ a ∷ []) ≡ keys_of key xs ++ key a ∷ []
  keys_of-append [] a = refl
  keys_of-append (x ∷ xs) a = ap (λ ks. key x ∷ ks) (keys_of-append xs a)

  keys_of-replace_last :
      (a : A) (bs : List A) → keys_of key (replace_last key a bs) ≡ keys_of key bs
  unfolding replace_last
  keys_of-replace_last a [] = refl
  keys_of-replace_last a (b ∷ bs) = elim (Bool-cases (contains (keys_of key bs) (key a))) [
    | inl later ↦ rw later (ap (λ ks. key b ∷ ks) (keys_of-replace_last a bs))
    | inr absent ↦ elim (Bool-cases (key b == key a)) [
      | inl same ↦
          rw (absent, same) (ap (λ k. k ∷ keys_of key bs) (sym ((eq_iff (key b) (key a)).0 same)))
      | inr other ↦ rw (absent, other) refl
    ]
  ]

  keys_of-merge_one :
      (merged : List A) (a : A)
      → keys_of key (merge_one key merged a) ≡ (
          if contains (keys_of key merged) (key a)
          then keys_of key merged
          else keys_of key merged ++ key a ∷ [])
  keys_of-merge_one merged a = elim (Bool-cases (contains (keys_of key merged) (key a))) [
    | inl old ↦ rw old (keys_of-replace_last a merged)
    | inr new ↦ rw new (keys_of-append merged a)
  ]

  keys_of-merge :
      (merged over : List A)
      → keys_of key (merge key merged over) ≡ with_new (keys_of key merged) (keys_of key over)
  unfolding merge
  keys_of-merge merged [] = refl
  keys_of-merge merged (a ∷ rest) =
      keys_of-merge (merge_one key merged a) rest
      ∙ ap (λ ks. with_new ks (keys_of key rest)) (keys_of-merge_one merged a)

abbrev pub body_plugins : Option AgentProfileBody → List PluginSource
body_plugins none = []
body_plugins (some b) = b.plugins

abbrev pub body_skills : Option AgentProfileBody → List SkillSource
body_skills none = []
body_skills (some b) = b.skills

abbrev pub body_mcps : Option AgentProfileBody → List McpConfig
body_mcps none = []
body_mcps (some b) = b.mcps

abbrev pub mcp_key : McpConfig → String
mcp_key m = m.name

unfoldable pub merge_profiles : Option AgentProfileBody → Option AgentProfileBody → AgentProfileBody
unfolding merge
merge_profiles baseline workflow = record {
  plugins = merge plugin_key (body_plugins baseline) (body_plugins workflow);
  skills = merge skill_key (body_skills baseline) (body_skills workflow);
  mcps = merge mcp_key (body_mcps baseline) (body_mcps workflow);
}

-- In a merged profile the last plugin, skill and MCP server of each key is the one of the workflow's
-- profile, and the one of the baseline where the workflow's has none of that key; and the keys of
-- each list are those of the baseline, in order, and then those of the workflow's profile that are
-- not there yet, each once.
pub last_of-merge_profiles :
    (baseline workflow : Option AgentProfileBody) (k : String)
    → (let merged = merge_profiles baseline workflow in
        (last_of plugin_key merged.plugins k
          ≡ or_else
              (last_of plugin_key (body_plugins workflow) k)
              (last_of plugin_key (body_plugins baseline) k))
        × (last_of skill_key merged.skills k
            ≡ or_else
                (last_of skill_key (body_skills workflow) k)
                (last_of skill_key (body_skills baseline) k))
        × (last_of mcp_key merged.mcps k
            ≡ or_else
                (last_of mcp_key (body_mcps workflow) k)
                (last_of mcp_key (body_mcps baseline) k))
        × (keys_of plugin_key merged.plugins
            ≡ with_new
                (keys_of plugin_key (body_plugins baseline))
                (keys_of plugin_key (body_plugins workflow)))
        × (keys_of skill_key merged.skills
            ≡ with_new
                (keys_of skill_key (body_skills baseline))
                (keys_of skill_key (body_skills workflow)))
        × (keys_of mcp_key merged.mcps
            ≡ with_new
                (keys_of mcp_key (body_mcps baseline))
                (keys_of mcp_key (body_mcps workflow))))
unfolding merge_profiles
last_of-merge_profiles baseline workflow k = (
  last_of-merge plugin_key (body_plugins baseline) (body_plugins workflow) k,
  last_of-merge skill_key (body_skills baseline) (body_skills workflow) k,
  last_of-merge mcp_key (body_mcps baseline) (body_mcps workflow) k,
  keys_of-merge plugin_key (body_plugins baseline) (body_plugins workflow),
  keys_of-merge skill_key (body_skills baseline) (body_skills workflow),
  keys_of-merge mcp_key (body_mcps baseline) (body_mcps workflow),
)
