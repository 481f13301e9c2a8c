-- ===== src/Prelude/Sort.antt =====
-- `sort.Strings` and `sort.Slice` by a text: insertion sort by the order of Go strings.
pub mod Laws
use Prim.Native.String.{String}
use mathlib.Core.List.{List, [], ◌∷◌}
use fleetlift.Prelude.Tests.{if◌then◌else◌}
use fleetlift.Prelude.Text.{text_lt}

module _ {ℓ} {A : Type ℓ} (key : A → String) where
  unfoldable pub place : A → List A → List A
  place a [] = a ∷ []
  place a (x ∷ xs) = if text_lt (key x) (key a) then x ∷ place a xs else a ∷ x ∷ xs

  unfoldable pub sort_by : List A → List A
  sort_by [] = []
  sort_by (x ∷ xs) = place x (sort_by xs)
