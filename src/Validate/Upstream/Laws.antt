-- ===== src/Validate/Upstream/Laws.antt =====
-- internal/workflow/validate.go, `upstreamOf`: it ends, with exactly the steps that are reached.
use fleetlift.Prelude.{
  ℕ, zero, suc, ◌+◌, ◌≤◌, String, ◌≡◌, refl, sym, subst, ◌↔◌, ◌⊎◌, inl, inr, some, List, [], ◌∷◌,
  contains, contains-append, In, lookup, length, count-le_one, count_zero, count_pos,
  length-le_of_count, arith, eq_iff, eq_refl, Bool-cases, ◌==◌,
}
use fleetlift.Model.{StepDef}
use fleetlift.Validate.Upstream.{
  Depends, parents, visit, search_up, all_parents, depends_map, upstream_of,
}
use fleetlift.Validate.Upstream.Search.{
  Reaches, direct, onward, Open, Inv, reached, contains-visit, queue-visit, visit-IsDistinct,
  length-visit,
}

module _ (m : Depends) (src : String) where
  parents-all : (map' : Depends) (u v : String) → In v (parents map' u) → In v (all_parents map')
  unfolding lookup
  parents-all [] u v h = h
  parents-all ((id, deps) ∷ rest) u v h =
      ground (arith, h, contains-append deps (all_parents rest) v, parents-all rest u v)

  Reaches-all : (v : String) → Reaches m src v → In v (all_parents m)
  Reaches-all v (direct d) = parents-all m src v d
  Reaches-all v (onward {u} r d) = parents-all m u v d

  length-visited-le :
      (queue visited : List String)
      → Inv m src queue visited
      → length visited ≤ length (all_parents m)
  length-visited-le queue visited inv = length-le_of_count visited (all_parents m) λ a.
      elim (Bool-cases (contains visited a)) [
        | inl there ↦ omega (
          arith,
          count-le_one a visited inv.distinct,
          count_pos a (all_parents m) (Reaches-all a (inv.sound a there)),
        )
        | inr away ↦ omega (arith, count_zero a visited away)
      ]

  -- One round of the loop.
  module _ (cur : String) (queue visited : List String)
      (inv : Inv m src (cur ∷ queue) visited) where
    abbrev next : List String × List String
    next = visit (parents m cur) (visited, queue)

    Reaches-step : (v : String) → In v (parents m cur) → Reaches m src v
    Reaches-step v d = elim (inv.queued cur (ground (arith, eq_refl cur))) [
      | inl same ↦ direct (subst (λ u. In v (parents m u)) same d)
      | inr old ↦ onward (inv.sound cur old) d
    ]

    visited-next : (v : String) → In v visited ⊎ In v (parents m cur) → In v next.0
    visited-next v (inl old) = ground (arith, old, contains-visit (parents m cur) visited queue v)
    visited-next v (inr new) = ground (arith, new, contains-visit (parents m cur) visited queue v)

    next-visited : (v : String) → In v next.0 → In v visited ⊎ In v (parents m cur)
    next-visited v h = elim (Bool-cases (contains visited v)) [
      | inl old ↦ inl old
      | inr other ↦ inr (ground (arith, h, other, contains-visit (parents m cur) visited queue v))
    ]

    Open-next : (u : String) → Open m src (cur ∷ queue) visited u → Open m src next.1 next.0 u
    Open-next u (inr all) = inr (λ v d. visited-next v (inl (all v d)))
    Open-next u (inl waits) = elim (Bool-cases (cur == u)) [
      | inl same ↦ inr (λ v d.
          visited-next v (inr (subst (λ x. In v (parents m x)) (sym ((eq_iff cur u).0 same)) d)))
      | inr other ↦
          inl ((queue-visit (parents m cur) visited queue u).0 (ground (arith, waits, other)))
    ]

    sound-next : (v : String) → In v next.0 → Reaches m src v
    sound-next v h = elim (next-visited v h) [
      | inl old ↦ inv.sound v old
      | inr new ↦ Reaches-step v new
    ]

    queued-next : (v : String) → In v next.1 → (v ≡ src) ⊎ In v next.0
    queued-next v h = elim ((queue-visit (parents m cur) visited queue v).2 h) [
      | inr there ↦ inr there
      | inl waits ↦ elim (inv.queued v (ground (arith, waits))) [
        | inl same ↦ inl same
        | inr old ↦ inr (visited-next v (inl old))
      ]
    ]

    closed-next : (u : String) → In u next.0 → Open m src next.1 next.0 u
    closed-next u h = elim ((queue-visit (parents m cur) visited queue u).1 h) [
      | inl old ↦ Open-next u (inv.closed u old)
      | inr waits ↦ inl waits
    ]

    Inv-next : Inv m src next.1 next.0
    Inv-next = record {
      sound = sound-next;
      queued = queued-next;
      start = Open-next src inv.start;
      closed = closed-next;
      distinct = visit-IsDistinct (parents m cur) visited queue inv.distinct;
    }

  search_up-Inv :
      (fuel : ℕ) (queue visited : List String)
      → Inv m src queue visited
      → length (all_parents m) + length queue ≤ fuel + length visited
      → (ups : List String) × (search_up fuel m queue visited ≡ some ups) × Inv m src [] ups
  unfolding search_up
  search_up-Inv fuel [] visited inv enough = (visited, refl, inv)
  search_up-Inv zero (cur ∷ queue) visited inv enough =
      absurd (omega (arith, length-visited-le (cur ∷ queue) visited inv))
  search_up-Inv (suc fuel) (cur ∷ queue) visited inv enough =
      search_up-Inv fuel (next cur queue visited inv).1 (next cur queue visited inv).0
        (Inv-next cur queue visited inv) (omega (arith, length-visit (parents m cur) visited queue))

  start-Inv : Inv m src (src ∷ []) []
  start-Inv = record {
    sound = λ v h. cc;
    queued = λ v h. inl (sym ((eq_iff src v).0 (ground (arith, h))));
    start = inl (ground (arith, eq_refl src));
    closed = λ u h. cc;
    distinct = tt;
  }

-- `upstreamOf` ends, with exactly the steps that the step depends on, directly or by way of others.
pub upstream_of_lem :
    (id : String) (steps : List StepDef)
    → (ups : List String) × (upstream_of id steps ≡ some ups)
      × ((v : String) → In v ups ↔ Reaches (depends_map steps []) id v)
unfolding upstream_of
upstream_of_lem id steps =
    let m = depends_map steps [] in
    let (ups, found, inv) =
      search_up-Inv m id (suc (length (all_parents m))) (id ∷ []) [] (start-Inv m id)
        (omega arith) in
    (ups, found, λ v. (inv.sound v, reached m id ups inv v))
