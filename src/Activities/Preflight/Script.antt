-- ===== src/Activities/Preflight/Script.antt =====
-- internal/activity/preflight.go: `BuildPreflightScript`, which installs plugins and servers.
use Prim.Native.String.{count}
use fleetlift.Prelude.{
  String, Bool, true, false, not, ◌&&◌, Option, List, [], ◌∷◌, leb, if◌then◌else◌, ◌==◌,
}
use fleetlift.Prelude.Text.{◌+++◌}
use fleetlift.Validate.Names.{matches_credential}
use fleetlift.Shell.{quote}
use fleetlift.Model.{PluginSource, McpConfig, Header, AgentProfileBody}
use fleetlift.Activities.Box.{Answer}
use fleetlift.Activities.Preflight.Url.{before_at}

-- What is relied on: path.Base, path.Join, the order in which Go goes through the map of credentials,
-- the credential store, `none` where there is none, and the row of the marketplace.
pub data Market : Type 0 where
  no_market : Market
  query_error : String → Market
  market : (url : String) (credential : Option String) → Market

pub record Store : Type 0 where
  pub base : String → String
  pub join_path : String → String → String
  pub range_order : List (String × String) → List (String × String)
  pub credential : Option (String → Answer String)
  pub marketplace : Market

-- `validCredName`: `^[A-Z][A-Z0-9_]{0,63}$`
abbrev pub valid_cred_name : String → Bool
valid_cred_name name = matches_credential name && leb (count name) 64

-- `export NAME=value`, and the lines for the names that are safe.
abbrev pub export_command : String → String → String
export_command name value = "export " +++ name +++ "=" +++ quote value

unfoldable pub export_lines : List (String × String) → String
unfolding quote matches_credential
export_lines [] = ""
export_lines ((name, value) ∷ creds) =
    let rest = export_lines creds in
    if valid_cred_name name then export_command name value +++ "\n" +++ rest else rest

abbrev pub has_plugin : List PluginSource → Bool
has_plugin [] = false
has_plugin (p ∷ ps) = if p.plugin == "" then has_plugin ps else true

abbrev pub market_lines : List PluginSource → (url token : String) → String
market_lines plugins url token =
    if has_plugin plugins && not (url == "")
    then (if token == ""
        then ""
        else "git config --global credential.helper store\necho "
          +++ quote ("https://x-access-token:" +++ token +++ "@github.com")
          +++ " > ~/.git-credentials\n")
      +++ "claude plugin marketplace add "
      +++ quote url
      +++ "\n"
    else ""

abbrev pub header_args : List Header → String
header_args [] = ""
header_args (h ∷ hs) = " --header " +++ quote (h.name +++ ": " +++ h.value) +++ header_args hs

abbrev pub transport_of : McpConfig → String
transport_of mcp = if mcp.transport == "" then "sse" else mcp.transport

unfoldable pub mcp_lines : List McpConfig → String
unfolding quote
mcp_lines [] = ""
mcp_lines (mcp ∷ mcps) =
    "claude mcp remove "
    +++ quote mcp.name
    +++ " 2>/dev/null || true\n"
    +++ "claude mcp add --transport "
    +++ quote (transport_of mcp)
    +++ " --scope user "
    +++ quote mcp.name
    +++ " "
    +++ quote mcp.url
    +++ header_args mcp.headers
    +++ "\n"
    +++ mcp_lines mcps

module _ (store : Store) where
  abbrev pub plugin_name : PluginSource → String
  plugin_name p = before_at (store.base p.plugin)

  unfoldable pub plugin_lines : List PluginSource → String
  unfolding quote before_at
  plugin_lines [] = ""
  plugin_lines (p ∷ ps) =
      let rest = plugin_lines ps in
      if p.plugin == ""
      then rest
      else (let name = quote (plugin_name p) in
          "claude plugin uninstall " +++ name +++ " 2>/dev/null || true\n"
          +++ "claude plugin install " +++ name +++ "\n" +++ rest)

  -- `BuildPreflightScript`
  unfoldable pub build_preflight_script :
      AgentProfileBody → (url token : String) → List (String × String) → String
  unfolding export_lines plugin_lines mcp_lines
  build_preflight_script profile url token creds =
      export_lines (store.range_order creds)
      +++ market_lines profile.plugins url token
      +++ plugin_lines profile.plugins
      +++ mcp_lines profile.mcps
