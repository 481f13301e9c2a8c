-- ===== src/Model/Json.antt =====
-- A value of Go's type `any` as YAML and JSON decoding make them. Of a floating-point number the
-- model keeps its printed text and whether it equals its conversion to `int64` and back, which is
-- all that the source asks of one.
use Prim.Native.String.{String}
use mathlib.Core.Bool.{Bool, false}
use mathlib.Core.Option.{Option, none, some}
use mathlib.Core.List.{List}

mutual
  pub data Value : Type 0 where
    null : Value
    bool : Bool → Value
    int : (text : String) → Value
    float : (text : String) (whole : Bool) → Value
    str : String → Value
    arr : Values → Value
    obj : Fields → Value

  pub data Values : Type 0 where
    nil : Values
    cons : Value → Values → Values

  pub data Fields : Type 0 where
    end : Fields
    field : String → Value → Fields → Fields

-- `map[string]any`: its keys in increasing order, each once. A nil map is the empty one.
abbrev pub Map : Type 0
Map = List (String × Value)

-- `v, _ := x.(bool)`: false where the value is absent or of another type.
abbrev pub as_bool : Option Value → Bool
as_bool (some (bool b)) = b
as_bool _ = false

-- `s, ok := x.(string)`
abbrev pub as_string : Value → Option String
as_string (str s) = some s
as_string _ = none
