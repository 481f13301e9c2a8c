-- ===== src/Validate/Kahn/Loop.antt =====
-- The loop over the queue: its invariant, and that it ends.
use fleetlift.Prelude.{
  ℕ, zero, suc, ◌+◌, ◌-◌, ◌<◌, ◌≤◌, String, ◌≡◌, refl, true, false, ◌&&◌, some, List, [], ◌∷◌,
  contains, insert, eqb, if◌then◌else◌, ◌==◌, eq_iff, eq_refl, arith, count, count-append,
  count_pos, length, length-le_of_count, All,
}
use native.Mathlib.Numerals.{add-one}
use fleetlift.Validate.Kahn.{degree, targets, release, kahn}
use fleetlift.Validate.Kahn.Build.{Edges, into, out_of, degree-insert}

-- The edges into `v` from what is not yet processed.
abbrev pub open_into : List String → String → Edges → ℕ
open_into done v [] = 0
open_into done v ((u, w) ∷ es) =
    (if w == v then (if contains done u then 0 else 1) else 0) + open_into done v es

pub open_into-nil : (v : String) (es : Edges) → open_into [] v es ≡ into v es
open_into-nil v [] = refl
open_into-nil v ((u, w) ∷ es) = ground (arith, open_into-nil v es)

-- Processing `cur` closes the edges out of it.
open_into-cons :
    (done : List String) (cur v : String) (es : Edges)
    → contains done cur ≡ false
    → open_into (cur ∷ done) v es + count v (out_of cur es) ≡ open_into done v es
open_into-cons done cur v [] h = refl
open_into-cons done cur v ((u, w) ∷ es) h =
    ground (arith, open_into-cons done cur v es h, eq_iff w cur, eq_iff cur u, eq_iff u cur)

-- The place of a step in the order of processing; the step processed last stands first.
abbrev pub rank_of : List String → String → ℕ
rank_of [] v = 0
rank_of (x ∷ xs) v = if x == v then suc (length xs) else rank_of xs v

rank_of-le : (done : List String) (v : String) → rank_of done v ≤ length done
rank_of-le [] v = omega arith
rank_of-le (x ∷ xs) v = ground (arith, rank_of-le xs v)

-- Every edge into a processed step comes from a step processed before it.
abbrev pub IsTopo : List String → Edges → Type 0
IsTopo done = All (λ e.
    contains done e.1 ≡ true → (contains done e.0 ≡ true) × (rank_of done e.0 < rank_of done e.1))

pub IsTopo-nil : (es : Edges) → IsTopo [] es
IsTopo-nil [] = tt
IsTopo-nil (e ∷ es) = (λ h. cc, IsTopo-nil es)

IsTopo-cons :
    (done : List String) (cur : String) (es : Edges)
    → contains done cur ≡ false
    → open_into done cur es ≡ 0
    → IsTopo done es
    → IsTopo (cur ∷ done) es
IsTopo-cons done cur [] new closed h = tt
IsTopo-cons done cur ((u, w) ∷ es) new closed h = (
  λ here. ground (arith, h.0, rank_of-le done u, eq_iff cur w, eq_iff w cur, eq_iff cur u),
  IsTopo-cons done cur es new (ground (arith, closed)) h.1,
)

-- `left` are the ends still to be released of the edges out of the step processed last.
pub record Inv (es : Edges) (valid left done queue : List String) (m : List (String × ℕ))
    : Type 0 where
  pub degrees : (v : String) → degree v m ≡ open_into done v es + count v left
  pub placed :
      (v : String)
      → count v done + count v queue ≡ (if contains valid v && eqb (degree v m) 0 then 1 else 0)
  pub topo : IsTopo done es

release-Inv :
    (es : Edges) (valid left done queue : List String) (m : List (String × ℕ))
    → All (λ t. contains valid t ≡ true) left
    → Inv es valid left done queue m
    → Inv es valid [] done (release left (m, queue)).1 (release left (m, queue)).0
unfolding release
release-Inv es valid [] done queue m ok h = h
release-Inv es valid (next ∷ left) done queue m ok h =
    release-Inv es valid left done _ (insert next (degree next m - 1) m) ok.1 record {
      degrees = λ v. ground (
        arith,
        h.degrees v,
        h.degrees next,
        degree-insert next v (degree next m - 1) m,
        eq_iff next v,
        eq_refl next,
      );
      placed = λ v. ground (
        arith,
        ok.0,
        h.degrees v,
        h.degrees next,
        h.placed v,
        h.placed next,
        degree-insert next v (degree next m - 1) m,
        count-append v queue (next ∷ []),
        eq_iff next v,
        eq_refl next,
      );
      topo = h.topo;
    }

module _ (es : Edges) (valid : List String)
    (ends : (u : String) → All (λ t. contains valid t ≡ true) (out_of u es)) where
  -- One round of the loop.
  step-Inv :
      (adj : List (String × List String)) (done queue : List String) (cur : String)
      (m : List (String × ℕ))
      → targets cur adj ≡ out_of cur es
      → Inv es valid [] done (cur ∷ queue) m
      → Inv es valid []
          (cur ∷ done)
          (release (targets cur adj) (m, queue)).1
          (release (targets cur adj) (m, queue)).0
  step-Inv adj done queue cur m lists h = rw lists (
      release-Inv es valid (out_of cur es) (cur ∷ done) queue m (ends cur) record {
        degrees = λ v. omega (arith, h.degrees v, open_into-cons done cur v es fresh);
        placed = λ v. omega (arith, h.placed v);
        topo = IsTopo-cons done cur es fresh closed h.topo;
      })
    where
      fresh : contains done cur ≡ false
      fresh = ground (arith, h.placed cur, eq_refl cur, count_pos cur done)

      closed : open_into done cur es ≡ 0
      closed = ground (arith, h.placed cur, h.degrees cur, eq_refl cur)

  -- The state in which the loop ends, and that it ends, where no more than `ids` can be processed.
  pub kahn-Inv :
      (adj : List (String × List String))
      → ((u : String) → targets u adj ≡ out_of u es)
      → (ids : List String) → ((v : String) → contains valid v ≡ true → 0 < count v ids)
      → (fuel : ℕ) (done queue : List String) (m : List (String × ℕ))
      → length ids < fuel + length done
      → Inv es valid [] done queue m
      → (final : List String) × (m' : List (String × ℕ)) × (kahn fuel adj m queue (length done)
          ≡ some (length final))
        × Inv es valid [] final [] m'
  unfolding kahn
  kahn-Inv adj lists ids all zero done queue m enough h =
      absurd (omega (arith, length-le_of_count done ids (λ v. ground (arith, h.placed v, all v))))
  kahn-Inv adj lists ids all (suc fuel) done [] m enough h = (done, m, refl, h)
  kahn-Inv adj lists ids all (suc fuel) done (cur ∷ queue) m enough h =
      let (final, m', ends_so, inv) =
        kahn-Inv adj lists ids all fuel (cur ∷ done) (release (targets cur adj) (m, queue)).1
          (release (targets cur adj) (m, queue)).0 (omega arith)
          (step-Inv adj done queue cur m (lists cur) h) in
      (final, m', rw add-one ends_so, inv)
