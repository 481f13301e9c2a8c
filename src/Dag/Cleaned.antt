-- ===== src/Dag/Cleaned.antt =====
-- internal/workflow/dag.go: the clean-up of the sandboxes of groups.
use fleetlift.Prelude.{
  String, ◌≡◌, true, Option, List, [], ◌∷◌, contains, All, arith, eq_refl, Bool-cases, inl, inr,
}
use fleetlift.Prelude.Text.{text_lt}
use fleetlift.Prelude.Sort.{place, sort_by}
use fleetlift.Model.{AgentProfileBody}
use fleetlift.Engine.{Activity, History, World}
use fleetlift.Dag.Data.{DagInput, Templates}
use fleetlift.Dag.Workflow.{cleanup_groups, run_loop}

-- The sandboxes that were asked to be cleaned up, the latest first.
abbrev pub cleanups : History → List String
cleanups [] = []
cleanups (Activity.cleanup_sandbox sandbox ∷ h) = sandbox ∷ cleanups h
cleanups (a ∷ h) = cleanups h

abbrev pub IsCleaned : History → String × String → Type 0
IsCleaned h g = contains (cleanups h) g.1 ≡ true

All-place :
    {A : Type 0} (key : A → String) (P : A → Type 0) (a : A) (xs : List A)
    → All P (place key a xs)
    → P a × All P xs
unfolding place
All-place key P a [] all = all
All-place key P a (x ∷ xs) all = elim (Bool-cases (text_lt (key x) (key a))) [
  | inl less ↦
      let all' = rw (less, place) at all in
      let (here, rest) = All-place key P a xs all'.1 in (here, (all'.0, rest))
  | inr more ↦ rw (more, place) at all
]

All-sort_by :
    {A : Type 0} (key : A → String) (P : A → Type 0) (xs : List A)
    → All P (sort_by key xs)
    → All P xs
unfolding sort_by
All-sort_by key P [] all = tt
All-sort_by key P (x ∷ xs) all =
    let (here, rest) = All-place key P x (sort_by key xs) all in (here, All-sort_by key P xs rest)

module _ (t : Templates) (input : DagInput) (w : World) where
  cleanup_groups-keeps :
      (groups : List (String × String)) (h : History) (s : String)
      → contains (cleanups h) s ≡ true
      → contains (cleanups (cleanup_groups t input groups w h).1) s ≡ true
  unfolding cleanup_groups
  cleanup_groups-keeps [] h s c = c
  cleanup_groups-keeps (g ∷ gs) h s c = cleanup_groups-keeps gs _ s (ground (arith, c))

  cleanup_groups-IsCleaned :
      (groups : List (String × String)) (h : History)
      → All (IsCleaned (cleanup_groups t input groups w h).1) groups
  unfolding cleanup_groups
  cleanup_groups-IsCleaned [] h = tt
  cleanup_groups-IsCleaned (g ∷ gs) h =
      (cleanup_groups-keeps gs _ g.1 (ground (arith, eq_refl g.1)), cleanup_groups-IsCleaned gs _)

-- However the loop of `DAGWorkflow` ends, each sandbox that it holds for a group is asked to be
-- cleaned up.
pub run_loop-IsCleaned :
    (t : Templates) (input : DagInput) (w : World) (profile : Option AgentProfileBody) (h : History)
    → (let (r, h') = run_loop t input profile w h in All (IsCleaned h') r.1.sandboxes)
unfolding run_loop
run_loop-IsCleaned t input w profile h =
    All-sort_by (λ g. g.0) _ _ (cleanup_groups-IsCleaned t input w _ _)
