-- ===== src/Activities/Preflight/Url.antt =====
-- internal/activity/preflight.go: `ParseGitHubTreeURL`, and the cuts of the strings package that it uses.
use Prim.Native.Char.{Char, code}
use text.Mathlib.TextEquality.{Char-path}
use text.Mathlib.TextLemmas.{nil-append, cons-append}
use fleetlift.Prelude.{
  String, ◌≡◌, refl, sym, ap, ◌∙◌, Bool, true, false, Option, none, some, eqb, if◌then◌else◌, arith,
  Bool-cases, inl, inr,
}
use fleetlift.Prelude.Text.{◌+++◌}
use fleetlift.Activities.Box.{Answer, done, fails}
use fleetlift.Activities.Names.{has_slash}

-- strings.TrimPrefix, `none` where strings.HasPrefix is false.
unfoldable pub strip_prefix : String → String → Option String
strip_prefix String.[] s = some s
strip_prefix (String.◌∷◌ c p) String.[] = none
strip_prefix (String.◌∷◌ c p) (String.◌∷◌ d s) =
    let rest = strip_prefix p s in if eqb (code c) (code d) then rest else none

abbrev pub with_first : Char → Option (String × String) → Option (String × String)
with_first c none = none
with_first c (some (before, after)) = some (String.◌∷◌ c before, after)

-- strings.SplitN(s, sep, 2): what stands before and after the first separator, if there is one.
unfoldable pub cut : String → String → Option (String × String)
unfolding strip_prefix
cut sep String.[] = elim (strip_prefix sep "") [ none ↦ none | some rest ↦ some ("", rest) ]
cut sep (String.◌∷◌ c s) =
    let later = with_first c (cut sep s) in
    elim (strip_prefix sep (String.◌∷◌ c s)) [ none ↦ later | some rest ↦ some ("", rest) ]

-- The name without its version.
unfoldable pub before_at : String → String
unfolding cut
before_at s = elim (cut "@" s) [ none ↦ s | some parts ↦ parts.0 ]

abbrev pub github_prefix : String
github_prefix = "https://github.com/"

abbrev pub split_branch :
    (String → String) → String → String → Option (String × String) → Answer (String × String)
split_branch quoted u path none =
    fails ("expected branch and subpath after /tree/ in " +++ quoted u)
split_branch quoted u path (some (branch, sub)) = done (github_prefix +++ path +++ ".git", sub)

abbrev pub split_tree :
    (String → String) → String → Option (String × String) → Answer (String × String)
split_tree quoted u none =
    fails ("expected GitHub tree URL with /tree/ component, got " +++ quoted u)
split_tree quoted u (some (path, rest)) = split_branch quoted u path (cut "/" rest)

abbrev pub after_github : (String → String) → String → Option String → Answer (String × String)
after_github quoted u none =
    fails ("expected GitHub URL starting with " +++ quoted github_prefix +++ ", got " +++ quoted u)
after_github quoted u (some trimmed) = split_tree quoted u (cut "/tree/" trimmed)

-- `ParseGitHubTreeURL`; `quoted` is `%q`.
unfoldable pub parse_github_tree_url : (String → String) → String → Answer (String × String)
unfolding strip_prefix cut
parse_github_tree_url quoted u = after_github quoted u (strip_prefix github_prefix u)

-- A text that is stripped is the prefix with the rest.
abbrev Rejoins : String → String → Option String → Type 0
Rejoins p s none = Unit
Rejoins p s (some rest) = s ≡ p +++ rest

strip_prefix-Rejoins : (p s : String) → Rejoins p s (strip_prefix p s)
unfolding strip_prefix
strip_prefix-Rejoins String.[] s = sym (nil-append s)
strip_prefix-Rejoins (String.◌∷◌ c p) String.[] = tt
strip_prefix-Rejoins (String.◌∷◌ c p) (String.◌∷◌ d s) = elim (Bool-cases (eqb (code c) (code d))) [
  | inl same ↦
      rw same (
        further (strip_prefix p s) (strip_prefix-Rejoins p s)
          (Char-path c d (ground (arith, same))))
  | inr other ↦ rw other tt
]
  where
    further :
        (o : Option String) → Rejoins p s o → c ≡ d → Rejoins (String.◌∷◌ c p) (String.◌∷◌ d s) o
    further none h e = tt
    further (some rest) h e =
        ap (λ x. String.◌∷◌ x s) (sym e) ∙ ap (String.◌∷◌ c) h ∙ sym (cons-append c p rest)

-- A text that is cut is what stands before, the separator, and what stands after.
abbrev Joins : String → String → Option (String × String) → Type 0
Joins sep s none = Unit
Joins sep s (some (before, after)) = s ≡ before +++ (sep +++ after)

cut-Joins : (sep s : String) → Joins sep s (cut sep s)
unfolding cut
cut-Joins sep String.[] = at_end (strip_prefix sep "") (strip_prefix-Rejoins sep "")
  where
    at_end :
        (o : Option String)
        → Rejoins sep "" o
        → Joins sep "" (elim o [ none ↦ none | some rest ↦ some ("", rest) ])
    at_end none h = tt
    at_end (some rest) h = h ∙ sym (nil-append (sep +++ rest))
cut-Joins sep (String.◌∷◌ c s) =
    here (strip_prefix sep (String.◌∷◌ c s)) (strip_prefix-Rejoins sep (String.◌∷◌ c s)) (cut sep s)
      (cut-Joins sep s)
  where
    later :
        (p : Option (String × String)) → Joins sep s p → Joins sep (String.◌∷◌ c s) (with_first c p)
    later none h = tt
    later (some (before, after)) h =
        ap (String.◌∷◌ c) h ∙ sym (cons-append c before (sep +++ after))

    here :
        (o : Option String)
        → Rejoins sep (String.◌∷◌ c s) o
        → (p : Option (String × String)) → Joins sep s p
        → Joins sep
            (String.◌∷◌ c s)
            (elim o [ none ↦ with_first c p | some rest ↦ some ("", rest) ])
    here none h p j = later p j
    here (some rest) h p j = h ∙ sym (nil-append (sep +++ rest))

-- Before the first slash there is none.
abbrev Clear : Option (String × String) → Type 0
Clear none = Unit
Clear (some (before, after)) = has_slash before ≡ false

cut-Clear : (s : String) → Clear (cut "/" s)
unfolding cut strip_prefix
cut-Clear String.[] = tt
cut-Clear (String.◌∷◌ c s) = here (eqb 47 (code c)) refl (cut "/" s) (cut-Clear s)
  where
    here :
        (slash : Bool)
        → eqb 47 (code c) ≡ slash
        → (o : Option (String × String)) → Clear o
        → Clear (elim (if slash then some s else none) [
          | none ↦ with_first c o
          | some rest ↦ some ("", rest)
        ])
    here true e o h = refl
    here false e none h = tt
    here false e (some (before, after)) h = ground (arith, h, e)

pair_of : {a b : String × String} → done a ≡ done b → a ≡ b
pair_of e = cc

module _ (quoted : String → String) (u url sub : String) where
  abbrev AfterTree : String → String → Type 0
  AfterTree path rest =
      (branch : String) × (rest ≡ branch +++ ("/" +++ sub))
      × (url ≡ github_prefix +++ path +++ ".git")
      × (has_slash branch ≡ false)

  split_branch-done :
      (path rest : String) (o : Option (String × String))
      → Joins "/" rest o
      → Clear o
      → split_branch quoted u path o ≡ done (url, sub)
      → AfterTree path rest
  split_branch-done path rest none j clear e = cc
  split_branch-done path rest (some (branch, after)) j clear e =
      let same = pair_of e in
      (branch, j ∙ ap (λ p. branch +++ ("/" +++ p.1)) same, sym (ap (λ p. p.0) same), clear)

  split_tree-done :
      (trimmed : String) (o : Option (String × String))
      → Joins "/tree/" trimmed o
      → split_tree quoted u o ≡ done (url, sub)
      → (path : String) × (rest : String) × (trimmed ≡ path +++ ("/tree/" +++ rest))
        × AfterTree path rest
  split_tree-done trimmed none j e = cc
  split_tree-done trimmed (some (path, rest)) j e = (
    path,
    rest,
    j,
    split_branch-done path rest (cut "/" rest) (cut-Joins "/" rest) (cut-Clear rest) e,
  )

  after_github-done :
      (o : Option String)
      → Rejoins github_prefix u o
      → after_github quoted u o ≡ done (url, sub)
      → (path : String) × (branch : String) × (u
          ≡ github_prefix +++ (path +++ ("/tree/" +++ (branch +++ ("/" +++ sub)))))
        × (url ≡ github_prefix +++ path +++ ".git")
        × (has_slash branch ≡ false)
  after_github-done none r e = cc
  after_github-done (some trimmed) r e =
      let (path, rest, tree, (branch, parts, clone, clear)) =
        split_tree-done trimmed (cut "/tree/" trimmed) (cut-Joins "/tree/" trimmed) e in
      (
        path,
        branch,
        r ∙ ap (λ t. github_prefix +++ t) (tree ∙ ap (λ t. path +++ ("/tree/" +++ t)) parts),
        clone,
        clear,
      )

-- A URL that `ParseGitHubTreeURL` takes is `https://github.com/`, a path, `/tree/`, a branch without a
-- slash, a slash and the subpath that it returns; and the clone URL is that of the path, with `.git`.
pub parse_github_tree_url-done :
    (quoted : String → String) (u url sub : String)
    → parse_github_tree_url quoted u ≡ done (url, sub)
    → (path : String) × (branch : String) × (u
        ≡ github_prefix +++ (path +++ ("/tree/" +++ (branch +++ ("/" +++ sub)))))
      × (url ≡ github_prefix +++ path +++ ".git")
      × (has_slash branch ≡ false)
unfolding parse_github_tree_url
parse_github_tree_url-done quoted u url sub =
    after_github-done quoted u url sub (strip_prefix github_prefix u)
      (strip_prefix-Rejoins github_prefix u)
