-- ===== src/Activities/Execute/Commands.antt =====
-- internal/activity/execute.go with internal/shellquote/quote.go: what a shell reads out of the command
-- that clones a repository.
use text.Mathlib.TextLemmas.{nil-append, append_assoc}
use fleetlift.Prelude.{
  String, ◌≡◌, refl, ap, ◌∙◌, some, List, [], ◌∷◌, ◌++◌, map, All, Bool-cases, inl, inr,
  if◌then◌else◌, ◌==◌,
}
use fleetlift.Prelude.Text.{◌+++◌, join}
use fleetlift.Shell.{quote, words_of, is_blank, is_special}
use fleetlift.Shell.Laws.{Piece, plain, quoted, print, text_of, IsPiece, words_of-join}
use fleetlift.Model.{RepoRef}
use fleetlift.Activities.Execute.Clone.{clone_command, repo_dir}

abbrev branch_pieces : String → List Piece
branch_pieces branch = if branch == "" then [] else plain "--branch" ∷ quoted branch ∷ []

abbrev pub branch_words : String → List String
branch_words branch = if branch == "" then [] else "--branch" ∷ branch ∷ []

abbrev pieces : RepoRef → List Piece
pieces repo =
    plain "git" ∷ plain "clone" ∷ plain "--depth" ∷ plain "50" ∷ branch_pieces repo.branch
    ++ quoted repo.url ∷ quoted (repo_dir repo) ∷ []

clone_start :
    (t : String)
    → "git clone --depth " +++ t ≡ "git" +++ " " +++ "clone" +++ " " +++ "--depth" +++ " " +++ t
clone_start t =
    append_assoc "git" " clone --depth " t
    ∙ ap (λ u. "git" +++ u)
        (append_assoc " " "clone --depth " t
          ∙ ap (λ u. " " +++ u)
              (append_assoc "clone" " --depth " t
                ∙ ap (λ u. "clone" +++ u)
                    (append_assoc " " "--depth " t
                      ∙ ap (λ u. " " +++ u) (append_assoc "--depth" " " t))))

branch_start : (t u : String) → (" --branch " +++ t) +++ u ≡ " " +++ "--branch" +++ " " +++ t +++ u
branch_start t u =
    append_assoc " --branch " t u
    ∙ append_assoc " " "--branch " (t +++ u)
    ∙ ap (λ v. " " +++ v) (append_assoc "--branch" " " (t +++ u))

abbrev started : String → String
started t = "git" +++ " " +++ "clone" +++ " " +++ "--depth" +++ " " +++ "50" +++ t

clone_command-join : (repo : RepoRef) → clone_command repo ≡ join " " (map print (pieces repo))
unfolding join
clone_command-join repo =
    let rest = " " +++ quote repo.url +++ " " +++ quote (repo_dir repo) in
    elim (Bool-cases (repo.branch == "")) [
      | inl default ↦ rw (clone_command, default) (clone_start _ ∙ ap started (nil-append rest))
      | inr named ↦
          rw (clone_command, named)
            (clone_start _ ∙ ap started (branch_start (quote repo.branch) rest))
    ]

pieces-ArePieces : (repo : RepoRef) → All IsPiece (pieces repo)
unfolding is_blank is_special
pieces-ArePieces repo = elim (Bool-cases (repo.branch == "")) [
  | inl default ↦ rw default (refl, (refl, (refl, (refl, (tt, (tt, tt))))))
  | inr named ↦ rw named (refl, (refl, (refl, (refl, (refl, (tt, (tt, (tt, tt))))))))
]

texts-pieces :
    (repo : RepoRef)
    → map text_of (pieces repo)
      ≡ "git" ∷ "clone" ∷ "--depth" ∷ "50" ∷ branch_words repo.branch
        ++ repo.url ∷ repo_dir repo ∷ []
texts-pieces repo = elim (Bool-cases (repo.branch == "")) [
  | inl default ↦ rw default refl
  | inr named ↦ rw named refl
]

-- Whatever characters the URL, the branch and the name of a repository have, a shell reads the command
-- that clones it as `git clone --depth 50`, the branch as an argument of its own if there is one, the
-- URL, and the directory.
pub clone_command-words :
    (repo : RepoRef)
    → words_of (clone_command repo)
      ≡ some (
          "git" ∷ "clone" ∷ "--depth" ∷ "50" ∷ branch_words repo.branch
          ++ repo.url ∷ repo_dir repo ∷ [])
clone_command-words repo =
    ap words_of (clone_command-join repo)
    ∙ words_of-join (pieces repo) (pieces-ArePieces repo)
    ∙ ap some (texts-pieces repo)
