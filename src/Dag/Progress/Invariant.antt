-- ===== src/Dag/Progress/Invariant.antt =====
-- What holds of the state between the rounds of the loop.
use fleetlift.Prelude.{
  ℕ, zero, suc, ◌<◌, String, ◌≡◌, refl, subst, ◌≢◌, ◌⊎◌, inl, inr, true, false, List, [], ◌∷◌, In,
  has, has-insert, All, All-zip, ◌==◌, eq_iff, eq_refl, arith, Bool-cases,
}
use fleetlift.Model.{StepOutput, StepDef}
use fleetlift.Dag.Data.{Outputs, State}
use fleetlift.Dag.Ready.{all_done, find_ready}
use fleetlift.Dag.Ready.Laws.{has-remove, remove-All, find_ready-nil}
use fleetlift.Dag.Rounds.{collect_one}

module _ (ids : List String) (rank : String → ℕ) where
  -- A pending step stands under its id, and its dependencies are steps that rank below it.
  abbrev pub Entry : String × StepDef → Type 0
  Entry p = (p.1.id ≡ p.0) × All (λ d. In d ids × (rank d < rank p.0)) p.1.depends_on

  pub record Inv (st : State) : Type 0 where
    pub entries : All Entry st.pending
    pub covered : (v : String) → In v ids → (has v st.outputs ≡ true) ⊎ (has v st.pending ≡ true)

  -- Among the pending steps below a rank, the one of a given key.
  find_entry :
      (v : String) (m : List (String × StepDef)) (P : String × StepDef → Type 0)
      → has v m ≡ true
      → All P m
      → (s : StepDef) × P (v, s)
  find_entry v [] P h all = cc
  find_entry v ((k, s) ∷ m) P h all = elim (Bool-cases (k == v)) [
    | inl same ↦ (s, subst (λ j. P (j, s)) ((eq_iff k v).0 same) all.0)
    | inr other ↦ find_entry v m P (ground (arith, h, other)) all.1
  ]

  -- A list of dependencies that is not all done has a member that is not done.
  waits_for :
      (deps : List String) (outputs : Outputs) (P : String → Type 0)
      → all_done deps outputs ≡ false
      → All P deps
      → (d : String) × P d × (has d outputs ≡ false)
  waits_for [] outputs P e all = cc
  waits_for (d ∷ deps) outputs P e all = elim (Bool-cases (has d outputs)) [
    | inl done ↦ waits_for deps outputs P (ground (arith, e, done)) all.1
    | inr missing ↦ (d, all.0, missing)
  ]

  module _ (st : State) (inv : Inv st) where
    descent :
        All (λ p. all_done p.1.depends_on st.outputs ≡ false) st.pending
        → (n : ℕ) (v : String) → has v st.pending ≡ true
        → rank v < n
        → ⊥
    descent stuck zero v h low = absurd (omega arith)
    descent stuck (suc n) v h low =
        let (s, entry) =
          find_entry v st.pending (λ p. Entry p × (all_done p.1.depends_on st.outputs ≡ false)) h
            (All-zip st.pending (λ p a b. (a, b)) inv.entries stuck) in
        let (d, below, missing) =
          waits_for s.depends_on st.outputs (λ d. In d ids × (rank d < rank v)) entry.1 entry.0.1 in
        elim (inv.covered d below.0) [
          | inl done ↦ cc
          | inr pending ↦ descent stuck n d pending (omega (arith, below.1))
        ]

    -- While a step is pending, one is ready.
    pub find_ready-ne-nil : st.pending ≢ [] → find_ready st.pending st.outputs ≢ []
    find_ready-ne-nil some_pending none_ready = ne_nil st.pending some_pending λ v h.
        descent (find_ready-nil st.pending st.outputs none_ready) (suc (rank v)) v h (omega arith)
      where
        ne_nil : (m : List (String × StepDef)) → m ≢ [] → ((v : String) → has v m ≡ true → ⊥) → ⊥
        ne_nil [] e absent = e refl
        ne_nil ((k, s) ∷ m) e absent = absent k (rw eq_refl refl)

  -- The collection of a result keeps the invariant.
  pub collect_one-Inv : (r : StepOutput) (st : State) → Inv st → Inv (collect_one r st)
  collect_one-Inv r st inv = record {
    entries = remove-All Entry r.step_id st.pending inv.entries;
    covered = λ v known. ground (
      arith,
      inv.covered v known,
      has-insert r.step_id v r st.outputs,
      has-remove r.step_id v st.pending,
    );
  }

  found_within :
      (m rest : List (String × StepDef))
      → All Entry rest
      → ((v : String) → has v rest ≡ true → has v m ≡ true)
      → All (λ p. has p.1.id m ≡ true) rest
  found_within m [] all within = tt
  found_within m ((k, s) ∷ rest) all within = (
    within s.id (ground (arith, all.0.0, eq_iff k s.id)),
    found_within m rest all.1 (λ v h. within v (ground (arith, h))),
  )

  -- A pending step is found under its own id.
  pub entries-has : (m : List (String × StepDef)) → All Entry m → All (λ p. has p.1.id m ≡ true) m
  entries-has m all = found_within m m all (λ v h. h)

-- The collection of results of which none fails the run.
abbrev pub collect_all : List (StepDef × StepOutput) → State → State
collect_all [] st = st
collect_all ((step, r) ∷ rs) st = collect_all rs (collect_one r st)

pub collect_all-Inv :
    (ids : List String) (rank : String → ℕ) (rs : List (StepDef × StepOutput)) (st : State)
    → Inv ids rank st
    → Inv ids rank (collect_all rs st)
collect_all-Inv ids rank [] st inv = inv
collect_all-Inv ids rank ((step, r) ∷ rs) st inv =
    collect_all-Inv ids rank rs (collect_one r st) (collect_one-Inv ids rank r st inv)
