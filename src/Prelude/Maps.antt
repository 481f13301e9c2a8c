-- ===== src/Prelude/Maps.antt =====
-- A Go map with text keys, as an association list without repeated keys.
use Prim.Native.String.{String}
use mathlib.Core.Path.{◌≡◌, refl}
use mathlib.Core.Bool.{Bool, true, false}
use mathlib.Core.Option.{Option, none, some}
use mathlib.Core.List.{List, [], ◌∷◌}
use native.Mathlib.Omega.{arith}
use text.Mathlib.Text.{◌==◌}
use text.Mathlib.TextEquality.{eq_iff}
use fleetlift.Prelude.Tests.{if◌then◌else◌}
use fleetlift.Prelude.Lists.{contains, IsDistinct}

module _ {ℓ} {V : Type ℓ} where
  abbrev pub keys : List (String × V) → List String
  keys [] = []
  keys (entry ∷ m) = entry.0 ∷ keys m

  -- `_, ok := m[k]`
  abbrev pub has : String → List (String × V) → Bool
  has k m = contains (keys m) k

  -- `m[k]` with its `ok`.
  unfoldable pub lookup : String → List (String × V) → Option V
  lookup key [] = none
  lookup key (entry ∷ m) = if entry.0 == key then some entry.1 else lookup key m

  -- `m[k] = v`
  unfoldable pub insert : String → V → List (String × V) → List (String × V)
  insert key value [] = (key, value) ∷ []
  insert key value (entry ∷ m) =
      if entry.0 == key then (key, value) ∷ m else entry ∷ insert key value m

  pub has-insert :
      (k j : String) (v : V) (m : List (String × V))
      → has j (insert k v m) ≡ (if k == j then true else has j m)
  unfolding insert
  has-insert k j v [] = ground arith
  has-insert k j v ((i, w) ∷ m) =
      ground (arith, eq_iff k j, eq_iff i k, eq_iff i j, has-insert k j v m)

  pub lookup-insert :
      (key other : String) (value : V) (m : List (String × V))
      → lookup other (insert key value m) ≡ (if key == other then some value else lookup other m)
  unfolding lookup insert
  lookup-insert key other value [] = refl
  lookup-insert key other value ((k, w) ∷ m) =
      ground
        (arith, lookup-insert key other value m, eq_iff k key, eq_iff key other, eq_iff k other)

  pub lookup-none : (k : String) (m : List (String × V)) → has k m ≡ false → lookup k m ≡ none
  unfolding lookup
  lookup-none k [] h = refl
  lookup-none k ((j, v) ∷ m) h = ground (arith, lookup-none k m)

-- A write keeps the keys distinct.
pub insert-IsDistinct {ℓ} :
    {V : Type ℓ} (k : String) (v : V) (m : List (String × V))
    → IsDistinct (keys m)
    → IsDistinct (keys (insert k v m))
unfolding insert
insert-IsDistinct k v [] h = (refl, tt)
insert-IsDistinct k v ((j, w) ∷ m) h =
    ground (arith, eq_iff j k, eq_iff k j, has-insert k j v m, insert-IsDistinct k v m h.1)
