-- ===== src/Dag/Ready/Laws.antt =====
-- The map of the pending steps, and which of them are ready.
use fleetlift.Prelude.{
  suc, ◌+◌, ◌<◌, ◌≤◌, String, ◌≡◌, refl, ◌≢◌, true, false, ◌||◌, List, [], ◌∷◌, contains, has,
  insert, has-insert, length, All, if◌then◌else◌, ◌==◌, eq_iff, arith, inl, inr, Bool-cases,
}
use fleetlift.Prelude.Text.{text_lt}
use fleetlift.Prelude.Sort.{place, sort_by}
use fleetlift.Model.{StepDef, step_ids}
use fleetlift.Dag.Data.{Outputs}
use fleetlift.Dag.Ready.{remove, all_pending, all_done, unblocked, find_ready}

module _ {ℓ} {A : Type ℓ} (key : A → String) where
  place-All {κ} : (P : A → Type κ) (a : A) (xs : List A) → P a → All P xs → All P (place key a xs)
  unfolding place
  place-All P a [] p h = (p, tt)
  place-All P a (x ∷ xs) p h = elim (Bool-cases (text_lt (key x) (key a))) [
    | inl less ↦ rw less (h.0, place-All P a xs p h.1)
    | inr more ↦ rw more (p, h)
  ]

  pub sort_by-All {κ} : (P : A → Type κ) (xs : List A) → All P xs → All P (sort_by key xs)
  unfolding sort_by
  sort_by-All P [] h = tt
  sort_by-All P (x ∷ xs) h = place-All P x (sort_by key xs) h.0 (sort_by-All P xs h.1)

  place-ne-nil : (a : A) (xs : List A) → place key a xs ≢ []
  unfolding place
  place-ne-nil a [] e = cc
  place-ne-nil a (x ∷ xs) e = ground arith

  pub sort_by-nil : (xs : List A) → sort_by key xs ≡ [] → xs ≡ []
  unfolding sort_by
  sort_by-nil [] e = refl
  sort_by-nil (x ∷ xs) e = absurd (place-ne-nil x (sort_by key xs) e)

module _ {ℓ} {V : Type ℓ} where
  pub has-remove :
      (k j : String) (m : List (String × V))
      → has j (remove k m) ≡ (if k == j then false else has j m)
  unfolding remove
  has-remove k j [] = ground arith
  has-remove k j ((i, v) ∷ m) = ground (arith, has-remove k j m, eq_iff i k, eq_iff k j, eq_iff i j)

  pub length-remove-le : (k : String) (m : List (String × V)) → length (remove k m) ≤ length m
  unfolding remove
  length-remove-le k [] = omega arith
  length-remove-le k ((i, v) ∷ m) = ground (arith, length-remove-le k m)

  pub length-remove-lt :
      (k : String) (m : List (String × V)) → has k m ≡ true → length (remove k m) < length m
  unfolding remove
  length-remove-lt k [] h = cc
  length-remove-lt k ((i, v) ∷ m) h = ground (arith, length-remove-le k m, length-remove-lt k m)

  pub remove-All {κ} :
      (P : String × V → Type κ) (k : String) (m : List (String × V)) → All P m → All P (remove k m)
  unfolding remove
  remove-All P k [] h = tt
  remove-All P k ((i, v) ∷ m) h = elim (Bool-cases (i == k)) [
    | inl same ↦ rw same (remove-All P k m h.1)
    | inr other ↦ rw other (h.0, remove-All P k m h.1)
  ]

  pub insert-All {κ} :
      (P : String × V → Type κ) (k : String) (v : V) (m : List (String × V))
      → P (k, v)
      → All P m
      → All P (insert k v m)
  unfolding insert
  insert-All P k v [] p h = (p, tt)
  insert-All P k v ((i, w) ∷ m) p h = elim (Bool-cases (i == k)) [
    | inl same ↦ rw same (p, h.1)
    | inr other ↦ rw other (h.0, insert-All P k v m p h.1)
  ]

  length-insert-le :
      (k : String) (v : V) (m : List (String × V)) → length (insert k v m) ≤ suc (length m)
  unfolding insert
  length-insert-le k v [] = omega arith
  length-insert-le k v ((i, w) ∷ m) = ground (arith, length-insert-le k v m)

pub has-all_pending :
    (v : String) (ss : List StepDef) (m : List (String × StepDef))
    → has v (all_pending ss m) ≡ (has v m || contains (step_ids ss) v)
unfolding all_pending
has-all_pending v [] m = ground arith
has-all_pending v (s ∷ ss) m =
    ground (arith, has-all_pending v ss (insert s.id s m), has-insert s.id v s m, eq_iff s.id v)

pub length-all_pending-le :
    (ss : List StepDef) (m : List (String × StepDef))
    → length (all_pending ss m) ≤ length ss + length m
unfolding all_pending
length-all_pending-le [] m = omega arith
length-all_pending-le (s ∷ ss) m =
    omega (arith, length-all_pending-le ss (insert s.id s m), length-insert-le s.id s m)

pub all_pending-All {κ} :
    (P : String × StepDef → Type κ) (ss : List StepDef) (m : List (String × StepDef))
    → All (λ s. P (s.id, s)) ss
    → All P m
    → All P (all_pending ss m)
unfolding all_pending
all_pending-All P [] m h k = k
all_pending-All P (s ∷ ss) m h k =
    all_pending-All P ss (insert s.id s m) h.1 (insert-All P s.id s m h.0 k)

-- Each ready step has its dependencies done, and what holds of the pending steps.
unblocked-All {κ} :
    (P : StepDef → Type κ) (m : List (String × StepDef)) (outputs : Outputs)
    → All (λ p. P p.1) m
    → All (λ s. P s × (all_done s.depends_on outputs ≡ true)) (unblocked m outputs)
unfolding unblocked
unblocked-All P [] outputs h = tt
unblocked-All P ((k, s) ∷ m) outputs h = elim (Bool-cases (all_done s.depends_on outputs)) [
  | inl free ↦ rw free ((h.0, free), unblocked-All P m outputs h.1)
  | inr stuck ↦ rw stuck (unblocked-All P m outputs h.1)
]

pub find_ready-All {κ} :
    (P : StepDef → Type κ) (m : List (String × StepDef)) (outputs : Outputs)
    → All (λ p. P p.1) m
    → All (λ s. P s × (all_done s.depends_on outputs ≡ true)) (find_ready m outputs)
unfolding find_ready
find_ready-All P m outputs h =
    sort_by-All (λ s. s.id) (λ s. P s × (all_done s.depends_on outputs ≡ true))
      (unblocked m outputs) (unblocked-All P m outputs h)

unblocked-nil :
    (m : List (String × StepDef)) (outputs : Outputs)
    → unblocked m outputs ≡ []
    → All (λ p. all_done p.1.depends_on outputs ≡ false) m
unfolding unblocked
unblocked-nil [] outputs e = tt
unblocked-nil ((k, s) ∷ m) outputs e = elim (Bool-cases (all_done s.depends_on outputs)) [
  | inl free ↦ cc (rw (free, unblocked) at e)
  | inr stuck ↦ (stuck, unblocked-nil m outputs (rw (stuck, unblocked) at e))
]

-- Where nothing is ready, each pending step waits for a dependency.
pub find_ready-nil :
    (m : List (String × StepDef)) (outputs : Outputs)
    → find_ready m outputs ≡ []
    → All (λ p. all_done p.1.depends_on outputs ≡ false) m
unfolding find_ready
find_ready-nil m outputs e =
    unblocked-nil m outputs (sort_by-nil (λ s. s.id) (unblocked m outputs) e)
