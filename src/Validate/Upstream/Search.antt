-- ===== src/Validate/Upstream/Search.antt =====
-- internal/workflow/validate.go, `upstreamOf`: what the loop over the queue keeps.
use fleetlift.Prelude.{
  ◌+◌, String, ◌≡◌, ◌⊎◌, inl, inr, ◌||◌, List, [], ◌∷◌, ◌++◌, contains, contains-append, In,
  IsDistinct, length, length-append, arith, eq_iff, Bool-cases, ◌==◌,
}
use fleetlift.Validate.Upstream.{Depends, parents, visit}

module _ (m : Depends) (src : String) where
  -- A step that `src` depends on, by way of one dependency or more.
  pub data Reaches : String → Type 0 where
    direct : {v : String} → In v (parents m src) → Reaches v
    onward : {u v : String} → Reaches u → In v (parents m u) → Reaches v

  -- A name that is yet to be expanded, or was with all its dependencies visited.
  abbrev pub Open : List String → List String → String → Type 0
  Open queue visited u = In u queue ⊎ ((v : String) → In v (parents m u) → In v visited)

  pub record Inv (queue visited : List String) : Type 0 where
    pub sound : (v : String) → In v visited → Reaches v
    pub queued : (v : String) → In v queue → (v ≡ src) ⊎ In v visited
    pub start : Open queue visited src
    pub closed : (u : String) → In u visited → Open queue visited u
    pub distinct : IsDistinct visited

  -- The search ends with all that is reached, and only that.
  pub reached : (visited : List String) → Inv [] visited → (v : String) → Reaches v → In v visited
  reached visited inv v (direct d) = elim inv.start [ inl q ↦ cc | inr all ↦ all v d ]
  reached visited inv v (onward {u} r d) = elim (inv.closed u (reached visited inv u r)) [
    | inl q ↦ cc
    | inr all ↦ all v d
  ]

-- What `visit` adds.
pub contains-visit :
    (deps visited queue : List String) (v : String)
    → contains (visit deps (visited, queue)).0 v ≡ (contains visited v || contains deps v)
unfolding visit
contains-visit [] visited queue v = ground arith
contains-visit (d ∷ deps) visited queue v = elim (Bool-cases (contains visited d)) [
  | inl old ↦ rw (old, visit) (ground (arith, old, eq_iff d v, contains-visit deps visited queue v))
  | inr new ↦
      rw (new, visit) (ground (arith, contains-visit deps (d ∷ visited) (queue ++ d ∷ []) v))
]

-- What was queued stays, and what is new in `visited` is queued.
pub queue-visit :
    (deps visited queue : List String) (v : String)
    → (In v queue → In v (visit deps (visited, queue)).1)
      × (In v (visit deps (visited, queue)).0 → In v visited ⊎ In v (visit deps (visited, queue)).1)
      × (In v (visit deps (visited, queue)).1 → In v queue ⊎ In v (visit deps (visited, queue)).0)
unfolding visit
queue-visit [] visited queue v = (λ q. q, λ q. inl q, λ q. inl q)
queue-visit (d ∷ deps) visited queue v = elim (Bool-cases (contains visited d)) [
  | inl old ↦ rw (old, visit) (queue-visit deps visited queue v)
  | inr new ↦
      let (kept, fresh, known) = queue-visit deps (d ∷ visited) (queue ++ d ∷ []) v in
      rw (new, visit)
        (
          λ q. kept (ground (arith, q, contains-append queue (d ∷ []) v)),
          λ q. elim (Bool-cases (d == v)) [
            | inl same ↦ inr (kept (ground (arith, same, contains-append queue (d ∷ []) v)))
            | inr other ↦ elim (fresh q) [
              | inl there ↦ inl (ground (arith, there, other))
              | inr next ↦ inr next
            ]
          ],
          λ q. elim (known q) [
            | inr there ↦ inr there
            | inl waits ↦ elim (Bool-cases (d == v)) [
              | inl same ↦
                  inr (ground (arith, same, contains-visit deps (d ∷ visited) (queue ++ d ∷ []) v))
              | inr other ↦ inl (ground (arith, waits, other, contains-append queue (d ∷ []) v))
            ]
          ],
        )
]

pub visit-IsDistinct :
    (deps visited queue : List String)
    → IsDistinct visited
    → IsDistinct (visit deps (visited, queue)).0
unfolding visit
visit-IsDistinct [] visited queue d = d
visit-IsDistinct (x ∷ deps) visited queue d = elim (Bool-cases (contains visited x)) [
  | inl old ↦ rw (old, visit) (visit-IsDistinct deps visited queue d)
  | inr new ↦ rw (new, visit) (visit-IsDistinct deps (x ∷ visited) (queue ++ x ∷ []) (new, d))
]

-- Each name that is added to `visited` is added to the queue.
pub length-visit :
    (deps visited queue : List String)
    → length (visit deps (visited, queue)).1 + length visited
      ≡ length (visit deps (visited, queue)).0 + length queue
unfolding visit
length-visit [] visited queue = omega arith
length-visit (x ∷ deps) visited queue = elim (Bool-cases (contains visited x)) [
  | inl old ↦ rw (old, visit) (length-visit deps visited queue)
  | inr new ↦
      rw (new, visit)
        (omega
          (arith, length-visit deps (x ∷ visited) (queue ++ x ∷ []), length-append queue (x ∷ [])))
]
