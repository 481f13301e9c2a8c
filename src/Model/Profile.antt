-- ===== src/Model/Profile.antt =====
-- internal/model/agent_profile.go: the parts of an agent profile. A nil profile is `none`.
use Prim.Native.String.{String}
use mathlib.Core.List.{List}

pub record PluginSource : Type 0 where
  pub marketplace : String
  pub plugin : String
  pub github_url : String

pub record SkillSource : Type 0 where
  pub marketplace : String
  pub skill : String
  pub github_url : String

pub record Header : Type 0 where
  pub name : String
  pub value : String

pub record McpConfig : Type 0 where
  pub name : String
  pub type : String
  pub transport : String
  pub url : String
  pub headers : List Header
  pub credentials : List String

pub record AgentProfileBody : Type 0 where
  pub plugins : List PluginSource
  pub skills : List SkillSource
  pub mcps : List McpConfig
