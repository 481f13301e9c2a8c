-- ===== src/Validate/Kahn/Counted.antt =====
-- Kahn's algorithm: all ids are processed exactly if the edges can be ranked.
use fleetlift.Prelude.{
  ℕ, zero, suc, ◌<◌, ◌≤◌, String, ◌≡◌, refl, sym, ◌∙◌, true, inl, inr, List, [], ◌∷◌, contains,
  eq_iff, arith, count, count_zero, count_pos, contains_of_count, length, length-le_of_count, All,
  Bool-cases,
}
use fleetlift.Validate.Kahn.Build.{Edges, out_of}
use fleetlift.Validate.Kahn.Loop.{open_into, rank_of, IsTopo, Inv}

abbrev pub Within : List String → Edges → Type 0
Within valid = All (λ e. (contains valid e.0 ≡ true) × (contains valid e.1 ≡ true))

abbrev pub Ranks : (String → ℕ) → Edges → Type 0
Ranks rank = All (λ e. rank e.0 < rank e.1)

pub Within→ends :
    (valid : List String) (es : Edges)
    → Within valid es
    → (u : String) → All (λ t. contains valid t ≡ true) (out_of u es)
Within→ends valid [] h u = tt
Within→ends valid ((w, v) ∷ es) h u = ground (arith, Within→ends valid es h.1 u)

pub IsTopo→Ranks :
    (valid done : List String) (es : Edges)
    → ((v : String) → contains valid v ≡ true → contains done v ≡ true)
    → Within valid es
    → IsTopo done es
    → Ranks (rank_of done) es
IsTopo→Ranks valid done [] all w h = tt
IsTopo→Ranks valid done (e ∷ es) all w h =
    ((h.0 (all e.1 w.0.1)).1, IsTopo→Ranks valid done es all w.1 h.1)

-- Where all that ranks below `v` is processed, no edge into `v` is open.
open_into_zero :
    (rank : String → ℕ) (valid done : List String) (v : String) (es : Edges)
    → Within valid es
    → Ranks rank es
    → ((u : String) → contains valid u ≡ true → rank u < rank v → contains done u ≡ true)
    → open_into done v es ≡ 0
open_into_zero rank valid done v [] w r below = refl
open_into_zero rank valid done v ((a, b) ∷ es) w r below =
    ground (arith, open_into_zero rank valid done v es w.1 r.1 below, below a w.0.0, eq_iff b v)

module _ (es : Edges) (valid final ids : List String) (m : List (String × ℕ))
    (inv : Inv es valid [] final [] m) (once : (v : String) → count v ids ≤ 1)
    (listed : (v : String) → contains ids v ≡ contains valid v) where
  count-le_ids : (v : String) → count v final ≤ count v ids
  count-le_ids v = ground (arith, inv.placed v, listed v, count_pos v ids)

  pub all_processed :
      length ids ≤ length final → (v : String) → contains valid v ≡ true → contains final v ≡ true
  all_processed long v ok = elim (Bool-cases (contains final v)) [
    | inl done ↦ done
    | inr missed ↦ absurd (
        omega (
          arith,
          length-le_of_count (v ∷ final) ids (λ a. ground (
            arith,
            count-le_ids a,
            eq_iff v a,
            count_zero v final missed,
            listed v,
            count_pos v ids,
          )),
        ))
  ]

  descent :
      (rank : String → ℕ)
      → Within valid es
      → Ranks rank es
      → (n : ℕ) (v : String) → contains valid v ≡ true
      → rank v < n
      → contains final v ≡ true
  descent rank w r zero v ok low = absurd (omega arith)
  descent rank w r (suc n) v ok low = contains_of_count v final (
      ground (
        arith,
        inv.placed v,
        inv.degrees v,
        open_into_zero rank valid final v es w r
            (λ u ok_u less. descent rank w r n u ok_u (omega arith)),
      ))

  pub ranked_length :
      (rank : String → ℕ) → Within valid es → Ranks rank es → length ids ≤ length final
  ranked_length rank w r = length-le_of_count ids final λ v. elim (Bool-cases (contains ids v)) [
    | inl here ↦ omega (
      arith,
      once v,
      count_pos v final (descent rank w r (suc (rank v)) v (sym (listed v) ∙ here) (omega arith)),
    )
    | inr away ↦ omega (arith, count_zero v ids away)
  ]
