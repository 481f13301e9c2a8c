-- ===== src/Prelude/Count.antt =====
-- How often a text stands in a list, and what that says of lengths and membership.
use Prim.Native.Nat.{ℕ, suc, ◌+◌, ◌≤◌, ◌<◌}
use Prim.Native.String.{String}
use mathlib.Core.Path.{◌≡◌, refl}
use mathlib.Core.Bool.{true, false}
use mathlib.Core.List.{List, [], ◌∷◌, ◌++◌}
use native.Mathlib.Omega.{arith}
use text.Mathlib.Text.{◌==◌}
use text.Mathlib.TextEquality.{eq_iff}
use text.Mathlib.TextPositions.{eq_refl}
use fleetlift.Prelude.Tests.{if◌then◌else◌}
use fleetlift.Prelude.Lists.{length, contains, IsDistinct}

abbrev pub count : String → List String → ℕ
count a [] = 0
count a (x ∷ xs) = (if x == a then 1 else 0) + count a xs

pub count-append : (a : String) (xs ys : List String) → count a (xs ++ ys) ≡ count a xs + count a ys
count-append a [] ys = omega arith
count-append a (x ∷ xs) ys = omega (arith, count-append a xs ys)

pub count_zero : (a : String) (xs : List String) → contains xs a ≡ false → count a xs ≡ 0
count_zero a [] h = refl
count_zero a (x ∷ xs) h = ground (arith, count_zero a xs)

pub count_pos : (a : String) (xs : List String) → contains xs a ≡ true → 0 < count a xs
count_pos a [] h = ground arith
count_pos a (x ∷ xs) h = ground (arith, count_pos a xs)

pub contains_of_count : (a : String) (xs : List String) → 0 < count a xs → contains xs a ≡ true
contains_of_count a [] h = absurd (omega arith)
contains_of_count a (x ∷ xs) h = ground (arith, contains_of_count a xs)

pub count-le_one : (a : String) (xs : List String) → IsDistinct xs → count a xs ≤ 1
count-le_one a [] h = omega arith
count-le_one a (x ∷ xs) h = ground (arith, count-le_one a xs h.1, count_zero x xs h.0, eq_iff x a)

-- `xs` without the first `a`.
erase : String → List String → List String
erase a [] = []
erase a (x ∷ xs) = if x == a then xs else x ∷ erase a xs

length-erase :
    (a : String) (xs : List String) → 0 < count a xs → suc (length (erase a xs)) ≡ length xs
unfolding erase
length-erase a [] h = absurd (omega arith)
length-erase a (x ∷ xs) h = ground (arith, length-erase a xs)

count-erase :
    (a b : String) (xs : List String)
    → 0 < count a xs
    → count b (erase a xs) + (if a == b then 1 else 0) ≡ count b xs
unfolding erase
count-erase a b [] h = absurd (omega arith)
count-erase a b (x ∷ xs) h = ground (arith, count-erase a b xs, eq_iff x a)

-- A list that holds each text at most as often as another is no longer.
pub length-le_of_count :
    (xs ys : List String) → ((a : String) → count a xs ≤ count a ys) → length xs ≤ length ys
length-le_of_count [] ys h = omega arith
length-le_of_count (x ∷ xs) ys h =
    let here : 0 < count x ys = ground (arith, h x, eq_refl x) in
    omega (
      arith,
      length-erase x ys here,
      length-le_of_count xs (erase x ys) (λ a. omega (arith, h a, count-erase x a ys here)),
    )
