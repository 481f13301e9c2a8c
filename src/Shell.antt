-- ===== src/Shell.antt =====
-- internal/shellquote/quote.go, and the words that a shell reads out of a command.
pub mod Laws
use Prim.Native.Char.{code}
use fleetlift.Prelude.{
  ℕ, String, Bool, true, false, ◌||◌, Option, none, some, List, [], ◌∷◌, map, eqb, if◌then◌else◌,
}
use fleetlift.Prelude.Text.{◌+++◌}

-- strings.ReplaceAll(s, "'", "'\"'\"'")
unfoldable pub escape : String → String
escape String.[] = ""
escape (String.◌∷◌ c s) =
    let rest = escape s in if eqb (code c) 39 then "'\"'\"'" +++ rest else String.◌∷◌ c rest

-- `Quote`
unfoldable pub quote : String → String
unfolding escape
quote s = "'" +++ (escape s +++ "'")

-- How a POSIX shell reads words: bare, within single or double quotes, and after a backslash. It is
-- not part of the source. `none`: an expansion, an operator, or a quote that is not closed.
pub data Mode : Type 0 where
  bare single double escaped : Mode

-- What ends the reading, unless it is quoted: `#`, `$`, `&`, `(`, `)`, `*`, `;`, `<`, `>`, `?`, `[`,
-- a backquote, `{`, `|`, `}`, `~` and the end of the line.
unfoldable pub is_special : ℕ → Bool
is_special c =
    eqb c 10
    || eqb c 35
    || eqb c 36
    || eqb c 38
    || eqb c 40
    || eqb c 41
    || eqb c 42
    || eqb c 59
    || eqb c 60
    || eqb c 62
    || eqb c 63
    || eqb c 91
    || eqb c 96
    || eqb c 123
    || eqb c 124
    || eqb c 125
    || eqb c 126

unfoldable pub is_blank : ℕ → Bool
is_blank c = eqb c 32 || eqb c 9

-- The word so far, if one has begun.
abbrev pub sofar : Option String → String
sofar none = ""
sofar (some w) = w

abbrev pub push : Option String → List String → List String
push none ws = ws
push (some w) ws = w ∷ ws

abbrev pub pushed : Option String → Option (List String) → Option (List String)
pushed w none = none
pushed w (some ws) = some (push w ws)

unfoldable pub words : Mode → Option String → String → Option (List String)
unfolding is_special is_blank
words bare w String.[] = some (push w [])
words single w String.[] = none
words double w String.[] = none
words escaped w String.[] = none
words single w (String.◌∷◌ c s) =
    if eqb (code c) 39 then words bare w s else words single (some (sofar w +++ String.◌∷◌ c "")) s
words double w (String.◌∷◌ c s) =
    if eqb (code c) 34
    then words bare w s
    else if eqb (code c) 36 || eqb (code c) 92 || eqb (code c) 96
    then none
    else words double (some (sofar w +++ String.◌∷◌ c "")) s
words escaped w (String.◌∷◌ c s) = words bare (some (sofar w +++ String.◌∷◌ c "")) s
words bare w (String.◌∷◌ c s) =
    if is_blank (code c)
    then pushed w (words bare none s)
    else if eqb (code c) 39
    then words single (some (sofar w)) s
    else if eqb (code c) 34
    then words double (some (sofar w)) s
    else if eqb (code c) 92
    then words escaped (some (sofar w)) s
    else if is_special (code c)
    then none
    else words bare (some (sofar w +++ String.◌∷◌ c "")) s

-- The words of a command.
abbrev pub words_of : String → Option (List String)
words_of s = words bare none s
