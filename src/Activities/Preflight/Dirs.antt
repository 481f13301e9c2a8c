-- ===== src/Activities/Preflight/Dirs.antt =====
-- internal/activity/preflight.go: the directories that `RunPreflight` returns.
use fleetlift.Prelude.{
  ℕ, suc, String, ◌≡◌, refl, ap, ◌∙◌, Bool, true, false, Option, none, some, List, [], ◌∷◌, All,
  length, if◌then◌else◌,
}
use fleetlift.Prelude.Text.{starts_with, ◌+++◌}
use fleetlift.Engine.{RunPreflightInput}
use fleetlift.Activities.Box.{Host, Box, Answer, done, fails, exec}
use fleetlift.Activities.Execute.Clone.{go_on}
use fleetlift.Activities.Preflight.Url.{parse_github_tree_url}
use fleetlift.Activities.Preflight.{
  prepend, build_eval_clone_commands, after_clone, with_creds, clone_evals, clones_of, scripted,
  run_script, mcp_creds, market_access, run_preflight, eval_clone,
}
use fleetlift.Activities.Preflight.Script.{Store, build_preflight_script}

-- As many as these.
abbrev Counted : {A : Type 0} → ℕ → Answer (List A) → Type 0
Counted n (done xs) = length xs ≡ n
Counted n (fails text) = Unit

abbrev pub IsSecure : String → Type 0
IsSecure url = starts_with "https://" url ≡ true

abbrev pub Secure : {A : Type 0} → List String → Answer (List A) → Type 0
Secure urls (done xs) = All IsSecure urls × (length xs ≡ length urls)
Secure urls (fails text) = Unit

prepend-Counted :
    {A : Type 0} (n : ℕ) (x : A) (r : Answer (List A)) → Counted n r → Counted (suc n) (prepend x r)
prepend-Counted n x (done xs) e = ap suc e
prepend-Counted n x (fails text) e = tt

clone_evals-Counted :
    (clones : List (String × String)) (i : ℕ) (w : Host) (b : Box)
    → Counted (length clones) (clone_evals i clones w b).0
unfolding clone_evals
clone_evals-Counted [] i w b = refl
clone_evals-Counted (c ∷ cs) i w b =
    let t = exec c.0 "/" ∷ b.trace in
    after (w.answer t).error (clone_evals-Counted cs (suc i) w (record b { trace = t }))
  where
    after :
        (o : Option String)
        → Counted
            (length cs)
            (clone_evals (suc i) cs w (record b { trace = exec c.0 "/" ∷ b.trace })).0
        → Counted
            (suc (length cs))
            (after_clone i c
              (clone_evals (suc i) cs)
              (w.answer (exec c.0 "/" ∷ b.trace))
              o
              w
              (record b { trace = exec c.0 "/" ∷ b.trace })).0
    after none h = prepend-Counted (length cs) c.1 _ h
    after (some text) h = tt

clones_of-Secure :
    (urls : List String) (r : Answer (List (String × String))) (w : Host) (b : Box)
    → Secure urls r
    → Secure urls (clones_of r w b).0
clones_of-Secure urls (fails text) w b h = tt
clones_of-Secure urls (done cs) w b h =
    counted (clone_evals 0 cs w b).0 (clone_evals-Counted cs 0 w b)
  where
    counted : (r : Answer (List String)) → Counted (length cs) r → Secure urls r
    counted (done dirs) e = (h.0, e ∙ h.1)
    counted (fails text) e = tt

module _ (store : Store) where
  build-Secure :
      (quoted : String → String) (urls : List String) (i : ℕ)
      → Secure urls (build_eval_clone_commands store quoted i urls)
  unfolding build_eval_clone_commands
  build-Secure quoted [] i = (tt, refl)
  build-Secure quoted (u ∷ us) i =
      here (starts_with "https://" u) refl (parse_github_tree_url quoted u)
        (build_eval_clone_commands store quoted (suc i) us) (build-Secure quoted us (suc i))
    where
      joined :
          (x : String × String) (r : Answer (List (String × String)))
          → IsSecure u
          → Secure us r
          → Secure (u ∷ us) (prepend x r)
      joined x (done xs) is_secure h = ((is_secure, h.0), ap suc h.1)
      joined x (fails text) is_secure h = tt

      here :
          (b : Bool)
          → starts_with "https://" u ≡ b
          → (p : Answer (String × String)) (r : Answer (List (String × String))) → Secure us r
          → Secure (u ∷ us) (
              if b
              then elim p [
                | fails text ↦ fails ("parse eval plugin url " +++ quoted u +++ ": " +++ text)
                | done parsed ↦ prepend (eval_clone store i parsed) r
              ]
              else fails ("eval_plugin url must use https:// scheme, got " +++ quoted u))
      here false e p r h = tt
      here true e (fails text) r h = tt
      here true e (done parsed) r h = joined (eval_clone store i parsed) r e h

  scripted-Secure :
      (input : RunPreflightInput) (a : Answer (String × String)) (w : Host) (b : Box)
      → Secure input.eval_plugin_urls (scripted store input a w b).0
  scripted-Secure input (fails text) w b = tt
  scripted-Secure input (done access) w b = from_creds (mcp_creds store w.quoted input.profile.mcps)
    where
      after_script :
          (r : Answer Unit) (b' : Box)
          → Secure input.eval_plugin_urls
              (go_on
                (λ u. clones_of (build_eval_clone_commands store w.quoted 0 input.eval_plugin_urls))
                r
                w
                b').0
      after_script (fails text) b' = tt
      after_script (done u) b' =
          clones_of-Secure input.eval_plugin_urls _ w b'
            (build-Secure w.quoted input.eval_plugin_urls 0)

      from_creds :
          (c : Answer (List (String × String)))
          → Secure input.eval_plugin_urls (with_creds store input access w.quoted c w b).0
      from_creds (fails text) = tt
      from_creds (done creds) =
          let script = build_preflight_script store input.profile access.0 access.1 creds in
          after_script (run_script script w b).0 (run_script script w b).1

  -- If `RunPreflight` has no error, each URL of a plugin under evaluation begins with `https://`, and
  -- there is one directory for each.
  pub run_preflight-Secure :
      (input : RunPreflightInput) (w : Host) (b : Box)
      → Secure input.eval_plugin_urls (run_preflight store input w b).0
  unfolding run_preflight
  run_preflight-Secure input w b = scripted-Secure input (market_access store store.marketplace) w b
