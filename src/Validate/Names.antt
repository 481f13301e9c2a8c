-- ===== src/Validate/Names.antt =====
-- internal/workflow/validate.go: the two regular expressions for names, and the fixed tables.
use Prim.Native.Char.{code}
use fleetlift.Prelude.{ℕ, String, Bool, true, false, ◌&&◌, ◌||◌, List, [], ◌∷◌, leb, eqb}

abbrev pub in_range : ℕ → ℕ → ℕ → Bool
in_range lo hi c = leb lo c && leb c hi

-- Every character has a code that passes the test.
abbrev pub every : (ℕ → Bool) → String → Bool
every p String.[] = true
every p (String.◌∷◌ c s) = p (code c) && every p s

-- `[a-z0-9_-]` and `[A-Z0-9_]`
abbrev pub id_char : ℕ → Bool
id_char c = in_range b'a' b'z' c || in_range b'0' b'9' c || eqb c b'_' || eqb c b'-'

abbrev pub cred_char : ℕ → Bool
cred_char c = in_range b'A' b'Z' c || in_range b'0' b'9' c || eqb c b'_'

-- `^[a-z][a-z0-9_-]*$`
unfoldable pub matches_step_id : String → Bool
matches_step_id String.[] = false
matches_step_id (String.◌∷◌ c s) = in_range b'a' b'z' (code c) && every id_char s

-- `^[A-Z][A-Z0-9_]*$`
unfoldable pub matches_credential : String → Bool
matches_credential String.[] = false
matches_credential (String.◌∷◌ c s) = in_range b'A' b'Z' (code c) && every cred_char s

abbrev pub valid_agent_types : List String
valid_agent_types = "claude-code" ∷ "codex" ∷ "shell" ∷ "" ∷ []

abbrev pub reserved_cred_names : List String
reserved_cred_names = "PATH" ∷ "HOME" ∷ "LD_PRELOAD" ∷ "LD_LIBRARY_PATH" ∷ "USER" ∷ "SHELL" ∷ []
