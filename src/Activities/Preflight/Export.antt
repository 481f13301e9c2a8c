-- ===== src/Activities/Preflight/Export.antt =====
-- internal/activity/preflight.go: a credential in the script.
use Prim.Native.Char.{code}
use text.Mathlib.TextLemmas.{append-nil, append_assoc}
use fleetlift.Prelude.{ℕ, String, ◌≡◌, refl, sym, ap, ◌∙◌, true, some, [], ◌∷◌, arith}
use fleetlift.Prelude.Text.{◌+++◌}
use fleetlift.Validate.Names.{cred_char, every, matches_credential}
use fleetlift.Shell.{quote, words, words_of, pushed, bare, is_special, is_blank}
use fleetlift.Shell.Laws.{
  plain, IsPiece, words-print, is_plain, plain_char, words-plain, words-quote, words-blank,
}
use fleetlift.Activities.Preflight.Script.{export_command, valid_cred_name}

cred_char-plain : (c : ℕ) → cred_char c ≡ true → plain_char c ≡ true
unfolding is_special is_blank
cred_char-plain c h = ground (arith, h)

every-plain : (s : String) → every cred_char s ≡ true → is_plain s ≡ true
every-plain String.[] h = refl
every-plain (String.◌∷◌ c s) h =
    let first : cred_char (code c) ≡ true = ground (arith, h) in
    let rest : every cred_char s ≡ true = ground (arith, h) in
    ground (arith, cred_char-plain (code c) first, every-plain s rest)

name-IsPiece : (name : String) → matches_credential name ≡ true → IsPiece (plain name)
unfolding matches_credential
name-IsPiece String.[] h = cc
name-IsPiece (String.◌∷◌ c s) h =
    let first : cred_char (code c) ≡ true = ground (arith, h) in
    let rest : every cred_char s ≡ true = ground (arith, h) in
    ground (arith, cred_char-plain (code c) first, every-plain s rest)

words-value :
    (w value : String)
    → words bare (some w) ("=" +++ quote value) ≡ some ((w +++ "=" +++ value) ∷ [])
unfolding is_special is_blank words
words-value w value =
    words-plain "=" (quote value) w refl
    ∙ ap (words bare (some (w +++ "="))) (sym (append-nil (quote value)))
    ∙ words-quote (some (w +++ "=")) value ""
    ∙ ap (λ v. some (v ∷ [])) (append_assoc w "=" value)

-- Whatever the value of a credential with a valid name is, a shell reads its line in the script as
-- `export` with one argument, the name, an equals sign and the value.
pub export_command-words :
    (name value : String)
    → valid_cred_name name ≡ true
    → words_of (export_command name value) ≡ some ("export" ∷ (name +++ "=" +++ value) ∷ [])
unfolding is_special is_blank
export_command-words name value valid =
    let named : matches_credential name ≡ true = ground (arith, valid) in
    let argument = name +++ "=" +++ quote value in
    ap words_of (append_assoc "export" " " argument)
    ∙ words-print (plain "export") (" " +++ argument) refl
    ∙ words-blank (some "export") argument
    ∙ ap (pushed (some "export")) (
        words-print (plain name) ("=" +++ quote value) (name-IsPiece name named)
        ∙ words-value name value)
