-- ===== src/Prelude/Sort/Laws.antt =====
-- Sorting texts keeps what a list holds and that its texts are distinct.
use Prim.Native.String.{String}
use mathlib.Core.Path.{◌≡◌, refl, ◌∙◌}
use mathlib.Core.Bool.{false, ◌||◌}
use mathlib.Core.List.{List, [], ◌∷◌}
use native.Mathlib.Omega.{arith}
use text.Mathlib.Text.{◌==◌}
use text.Mathlib.TextEquality.{eq_iff}
use fleetlift.Prelude.Lists.{contains, IsDistinct}
use fleetlift.Prelude.Sort.{place, sort_by}

abbrev pub by_name : String → String
by_name n = n

contains-place :
    (x : String) (xs : List String) (n : String)
    → contains (place by_name x xs) n ≡ (x == n || contains xs n)
unfolding place
contains-place x [] n = ground arith
contains-place x (y ∷ ys) n = ground (arith, contains-place x ys n)

pub contains-sort_by :
    (xs : List String) (n : String) → contains (sort_by by_name xs) n ≡ contains xs n
unfolding sort_by
contains-sort_by [] n = refl
contains-sort_by (x ∷ xs) n =
    ground (arith, contains-place x (sort_by by_name xs) n, contains-sort_by xs n)

place-IsDistinct :
    (x : String) (xs : List String)
    → contains xs x ≡ false
    → IsDistinct xs
    → IsDistinct (place by_name x xs)
unfolding place
place-IsDistinct x [] new d = (refl, tt)
place-IsDistinct x (y ∷ ys) new d =
    ground (arith, eq_iff x y, eq_iff y x, contains-place x ys y, place-IsDistinct x ys)

pub sort_by-IsDistinct : (xs : List String) → IsDistinct xs → IsDistinct (sort_by by_name xs)
unfolding sort_by
sort_by-IsDistinct [] d = tt
sort_by-IsDistinct (x ∷ xs) d =
    place-IsDistinct x (sort_by by_name xs) (contains-sort_by xs x ∙ d.0)
      (sort_by-IsDistinct xs d.1)
