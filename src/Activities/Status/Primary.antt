-- ===== src/Activities/Status/Primary.antt =====
-- internal/activity/status.go: which artifact `GetPrimaryRunArtifactID` takes.
use fleetlift.Prelude.{
  String, ◌≡◌, refl, sym, ap, ◌∙◌, ◌⊎◌, inl, inr, Bool, true, false, ◌||◌, Option, none, some, List,
  [], ◌∷◌, arith, Bool-cases,
}
use fleetlift.Activities.Status.{Artifact, keywords, bears, first_with, first_of, primary_artifact}

abbrev pub Among : Artifact → List Artifact → Type 0
Among a [] = ⊥
Among a (art ∷ arts) = (art ≡ a) ⊎ Among a arts

module _ (to_lower : String → String) where
  -- The name has one of the texts.
  abbrev pub bears_one : List String → Artifact → Bool
  bears_one [] art = false
  bears_one (k ∷ ks) art = bears to_lower k art || bears_one ks art

  -- What a search for one text comes to.
  abbrev Found : String → List Artifact → Option String → Type 0
  Found k arts none = (a : Artifact) → Among a arts → bears to_lower k a ≡ false
  Found k arts (some id) = (a : Artifact) × Among a arts × (id ≡ a.id) × (bears to_lower k a ≡ true)

  first_with-Found : (k : String) (arts : List Artifact) → Found k arts (first_with to_lower k arts)
  first_with-Found k [] = λ a i. absurd i
  first_with-Found k (art ∷ arts) = elim (Bool-cases (bears to_lower k art)) [
    | inl here ↦ rw here (art, inl refl, refl, here)
    | inr off ↦ rw off (further (first_with to_lower k arts) (first_with-Found k arts) off)
  ]
    where
      further :
          (o : Option String)
          → Found k arts o
          → bears to_lower k art ≡ false
          → Found k (art ∷ arts) o
      further none none_so off = λ a i. elim i [
        | inl same ↦ ap (bears to_lower k) (sym same) ∙ off
        | inr later ↦ none_so a later
      ]
      further (some id) (a, i, same, found) off = (a, inr i, same, found)

  -- A name with one of the texts, if any name has one.
  abbrev Best : List String → List Artifact → Option String → Type 0
  Best ks arts none = (a : Artifact) → Among a arts → bears_one ks a ≡ false
  Best ks arts (some id) = (a : Artifact) × Among a arts × (id ≡ a.id) × (bears_one ks a ≡ true)

  first_of-Best :
      (ks : List String) (arts : List Artifact) → Best ks arts (first_of to_lower ks arts)
  first_of-Best [] arts = λ a i. refl
  first_of-Best (k ∷ ks) arts =
      next (first_with to_lower k arts) (first_with-Found k arts) (first_of to_lower ks arts)
        (first_of-Best ks arts)
    where
      next :
          (o : Option String)
          → Found k arts o
          → (p : Option String) → Best ks arts p
          → Best (k ∷ ks) arts (elim o [ some id ↦ some id | none ↦ p ])
      next (some id) (a, i, same, found) p best = (a, i, same, ground (arith, found))
      next none none_so none best = λ a i. ground (arith, none_so a i, best a i)
      next none none_so (some id) (a, i, same, found) = (a, i, same, ground (arith, found))

  -- Of a run that has artifacts, the primary one is one of them, and it bears one of the keywords in its
  -- name if any of them does.
  pub primary_artifact-Best :
      (art : Artifact) (arts : List Artifact)
      → (a : Artifact) × Among a (art ∷ arts)
        × (primary_artifact to_lower (art ∷ arts) ≡ a.id)
        × ((b : Artifact)
            → Among b (art ∷ arts)
            → bears_one keywords b ≡ true
            → bears_one keywords a ≡ true)
  unfolding primary_artifact
  primary_artifact-Best art arts =
      chosen (first_of to_lower keywords (art ∷ arts)) (first_of-Best keywords (art ∷ arts))
    where
      chosen :
          (o : Option String)
          → Best keywords (art ∷ arts) o
          → (a : Artifact) × Among a (art ∷ arts)
            × ((elim o [ some id ↦ id | none ↦ art.id ]) ≡ a.id)
            × ((b : Artifact)
                → Among b (art ∷ arts)
                → bears_one keywords b ≡ true
                → bears_one keywords a ≡ true)
      chosen none none_so = (art, inl refl, refl, λ b i e. absurd (cc (none_so b i, e)))
      chosen (some id) (a, i, same, found) = (a, i, same, λ b j e. found)
