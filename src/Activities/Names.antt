-- ===== src/Activities/Names.antt =====
-- internal/activity/execute.go: `repoName` with its helpers; util.go: `gitFailed`.
use Prim.Native.Char.{code}
use Prim.Native.String.{len}
use fleetlift.Prelude.{
  String, ◌≡◌, ◌≢◌, refl, inl, inr, Bool, false, ◌||◌, Option, none, some, ltb, eqb, if◌then◌else◌,
  ◌==◌, arith, eq_iff, Bool-cases,
}
use fleetlift.Prelude.Text.{has_text}
use fleetlift.Model.{RepoRef}

-- The text without the suffix, if it ends in it.
unfoldable pub trim_suffix : String → String → String
trim_suffix suffix String.[] = ""
trim_suffix suffix (String.◌∷◌ c s) =
    let rest = trim_suffix suffix s in if String.◌∷◌ c s == suffix then "" else String.◌∷◌ c rest

-- What comes after the last slash.
unfoldable pub after_slash : String → Option String
after_slash String.[] = none
after_slash (String.◌∷◌ c s) = elim (after_slash s) [
  | some rest ↦ some rest
  | none ↦ if eqb (code c) b'/' then some s else none
]

-- `splitLast(s, "/")`
abbrev pub split_last : String → String
split_last s = elim (after_slash s) [ none ↦ s | some rest ↦ rest ]

abbrev pub trim_longer : String → String → String
trim_longer suffix url = if ltb (len suffix) (len url) then trim_suffix suffix url else url

-- `repoName`
unfoldable pub repo_name : RepoRef → String
unfolding trim_suffix after_slash
repo_name repo =
    if repo.name == ""
    then (let last = split_last (trim_longer "/" (trim_longer ".git" repo.url)) in
        if last == "" then "repo" else last)
    else repo.name

-- `gitFailed`
unfoldable pub git_failed : String → Bool
unfolding has_text
git_failed stderr = has_text "fatal:" stderr || has_text "error:" stderr

abbrev pub at : String → RepoRef
at url = record { url = url; branch = ""; ref = ""; name = ""; create_branch = "" }

repo_name_tests :
    (repo_name (at "https://github.com/org/app.git") ≡ "app")
    × (repo_name (at "https://github.com/org/app/") ≡ "app")
    × (repo_name (at "https://github.com/org//") ≡ "repo")
unfolding repo_name
repo_name_tests = (refl, refl, refl)

or_default-named : (x d : String) → d ≢ "" → (if x == "" then d else x) ≢ ""
or_default-named x d named e = elim (Bool-cases (x == "")) [
  | inl empty ↦ named (rw empty at e)
  | inr full ↦ ground (arith, full, eq_iff x "", rw full at e)
]

abbrev pub has_slash : String → Bool
has_slash String.[] = false
has_slash (String.◌∷◌ c s) = eqb (code c) b'/' || has_slash s

-- What comes after the last slash has none.
abbrev NoSlash : String → Option String → Type 0
NoSlash s none = has_slash s ≡ false
NoSlash s (some rest) = has_slash rest ≡ false

after_slash-NoSlash : (s : String) → NoSlash s (after_slash s)
unfolding after_slash
after_slash-NoSlash String.[] = refl
after_slash-NoSlash (String.◌∷◌ c s) = grind (arith, after_slash-NoSlash s)

split_last-NoSlash : (s : String) → has_slash (split_last s) ≡ false
split_last-NoSlash s = ends (after_slash s) (after_slash-NoSlash s)
  where
    ends :
        (o : Option String)
        → NoSlash s o
        → has_slash (elim o [ none ↦ s | some rest ↦ rest ]) ≡ false
    ends none free = free
    ends (some rest) free = free

or_repo-NoSlash :
    (last : String)
    → has_slash last ≡ false
    → has_slash (if last == "" then "repo" else last) ≡ false
or_repo-NoSlash last free = elim (Bool-cases (last == "")) [
  | inl empty ↦ rw empty refl
  | inr full ↦ rw full free
]

-- The directory of a repository has a name, and one that is read off a URL has no slash.
pub repo_name-named :
    (repo : RepoRef) → (repo_name repo ≢ "") × (repo.name ≡ "" → has_slash (repo_name repo) ≡ false)
unfolding repo_name
repo_name-named repo =
    let url = trim_longer "/" (trim_longer ".git" repo.url) in
    (
      or_default-named repo.name _ (or_default-named (split_last url) "repo" (λ e. cc)),
      λ unnamed.
          rw ((eq_iff repo.name "").1 unnamed)
            (or_repo-NoSlash (split_last url) (split_last-NoSlash url)),
    )
