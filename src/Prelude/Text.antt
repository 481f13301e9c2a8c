-- ===== src/Prelude/Text.antt =====
-- What the source uses of Go's `strings` and `fmt` on whole texts.
use Prim.Native.Nat.{ℕ, zero, suc, ◌/◌, ◌%◌}
use Prim.Native.Char.{code}
use Prim.Native.String.{String, compare}
use Prim.Native.String
use mathlib.Core.Bool.{Bool, true, false, ◌||◌, ◌&&◌}
use mathlib.Core.List.{List, [], ◌∷◌}
use text.Mathlib.Text.{◌==◌, is_lt}
use mathlib.Core.Path.{◌≡◌, refl}
use fleetlift.Prelude.Tests.{ltb, leb, eqb, if◌then◌else◌}

infixr 60 ◌+++◌
abbrev pub ◌+++◌ : String → String → String
s +++ t = String.◌++◌ s t

-- `a < b` on Go strings: the order of their bytes.
abbrev pub text_lt : String → String → Bool
text_lt a b = is_lt (compare a b)

-- strings.Join
unfoldable pub join : String → List String → String
join sep [] = ""
join sep (x ∷ []) = x
join sep (x ∷ y ∷ xs) = x +++ sep +++ join sep (y ∷ xs)

digit : ℕ → String
digit d =
    if eqb d 0
    then "0"
    else if eqb d 1
    then "1"
    else if eqb d 2
    then "2"
    else if eqb d 3
    then "3"
    else if eqb d 4
    then "4"
    else if eqb d 5
    then "5"
    else if eqb d 6
    then "6"
    else if eqb d 7
    then "7"
    else if eqb d 8
    then "8"
    else "9"

-- `%d` of a number below `10 ^ fuel`.
show_from : ℕ → ℕ → String
show_from zero n = ""
show_from (suc fuel) n =
    let rest = show_from fuel (n / 10) in if ltb n 10 then digit n else rest +++ digit (n % 10)

-- `%d` of a count: twenty digits print every `int`.
unfoldable pub show : ℕ → String
unfolding digit show_from
show n = show_from 20 n

-- The white space of `strings.TrimSpace`.
is_space : ℕ → Bool
is_space c =
    (leb 9 c && leb c 13)
    || eqb c 32
    || eqb c 0x85
    || eqb c 0xa0
    || eqb c 0x1680
    || (leb 0x2000 c && leb c 0x200a)
    || eqb c 0x2028
    || eqb c 0x2029
    || eqb c 0x202f
    || eqb c 0x205f
    || eqb c 0x3000

trim_left : String → String
trim_left String.[] = ""
trim_left (String.◌∷◌ c s) = if is_space (code c) then trim_left s else String.◌∷◌ c s

trim_right : String → String
trim_right String.[] = ""
trim_right (String.◌∷◌ c s) =
    let r = trim_right s in if is_space (code c) && r == "" then "" else String.◌∷◌ c r

-- strings.TrimSpace
unfoldable pub trim_space : String → String
unfolding is_space trim_left trim_right
trim_space s = trim_right (trim_left s)

-- strings.HasPrefix and strings.Contains
unfoldable pub starts_with : String → String → Bool
starts_with String.[] s = true
starts_with (String.◌∷◌ c p) String.[] = false
starts_with (String.◌∷◌ c p) (String.◌∷◌ d s) = eqb (code c) (code d) && starts_with p s

unfoldable pub has_text : String → String → Bool
unfolding starts_with
has_text sub String.[] = starts_with sub ""
has_text sub (String.◌∷◌ c s) = starts_with sub (String.◌∷◌ c s) || has_text sub s

has_text_tests :
    (has_text "{{" "a {{b}}" ≡ true) × (has_text "{{" "a {b" ≡ false) × (has_text "" "" ≡ true)
unfolding has_text
has_text_tests = (refl, refl, refl)

show_tests : show 0 +++ show 1207 ≡ "01207"
unfolding show
show_tests = refl

trim_tests : trim_space " true\n" ≡ "true"
unfolding trim_space
trim_tests = refl
