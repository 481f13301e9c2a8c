-- ===== src/Shell/Laws.antt =====
-- internal/shellquote/quote.go: a shell reads a quoted text as one word, that text.
use Prim.Native.Char.{Char, code}
use text.Mathlib.TextEquality.{Char-path}
use text.Mathlib.TextLemmas.{nil-append, cons-append, append-nil, append_assoc}
use fleetlift.Prelude.{
  ℕ, String, ◌≡◌, refl, sym, ap, ◌∙◌, Bool, true, Option, none, some, List, [], ◌∷◌, map, eqb,
  arith, Bool-cases, inl, inr, not, All, ◌&&◌,
}
use fleetlift.Prelude.Text.{◌+++◌, join}
use fleetlift.Shell.{
  escape, quote, bare, single, words, words_of, sofar, pushed, is_blank, is_special,
}

-- A text in front, character by character.
one : (c : Char) (t : String) → String.◌∷◌ c "" +++ t ≡ String.◌∷◌ c t
one c t = rw (cons-append c "" t, nil-append t) refl

five :
    (t : String)
    → "'\"'\"'" +++ t
      ≡ String.◌∷◌ "'" (String.◌∷◌ "\"" (String.◌∷◌ "'" (String.◌∷◌ "\"" (String.◌∷◌ "'" t))))
five t =
    cons-append "'" "\"'\"'" t
    ∙ ap (String.◌∷◌ "'") (
        cons-append "\"" "'\"'" t
        ∙ ap (String.◌∷◌ "\"") (
            cons-append "'" "\"'" t
            ∙ ap (String.◌∷◌ "'") (cons-append "\"" "'" t ∙ ap (String.◌∷◌ "\"") (one "'" t))))

longer : (w s : String) (c : Char) → (w +++ String.◌∷◌ c "") +++ s ≡ w +++ String.◌∷◌ c s
longer w s c = append_assoc w (String.◌∷◌ c "") s ∙ ap (λ u. w +++ u) (one c s)

words-five :
    (t w : String) → words single (some w) ("'\"'\"'" +++ t) ≡ words single (some (w +++ "'")) t
unfolding words
words-five t w = rw five refl

words-escape :
    (s t w : String)
    → words single (some w) (escape s +++ ("'" +++ t)) ≡ words bare (some (w +++ s)) t
unfolding words escape
words-escape String.[] t w =
    ap (words single (some w)) (nil-append ("'" +++ t) ∙ one "'" t)
    ∙ ap (λ v. words bare (some v) t) (sym (append-nil w))
words-escape (String.◌∷◌ c s) t w = elim (Bool-cases (eqb (code c) 39)) [
  | inl tick ↦
      let c_is : "'" ≡ c = Char-path "'" c (ground (arith, tick)) in
      rw (tick, append_assoc)
        (words-five (escape s +++ ("'" +++ t)) w
          ∙ words-escape s t (w +++ "'")
          ∙ ap (λ v. words bare (some v) t) (longer w s "'" ∙ ap (λ d. w +++ String.◌∷◌ d s) c_is))
  | inr other ↦
      rw (other, cons-append)
        (rw other (
          words-escape s t (w +++ String.◌∷◌ c "")
          ∙ ap (λ v. words bare (some v) t) (longer w s c)))
]

-- A quoted text goes on with the word that has begun, and is taken as it stands.
pub words-quote :
    (o : Option String) (s t : String)
    → words bare o (quote s +++ t) ≡ words bare (some (sofar o +++ s)) t
unfolding words quote
words-quote o s t =
    ap (words bare o) (
      append_assoc "'" (escape s +++ "'") t
      ∙ one "'" ((escape s +++ "'") +++ t)
      ∙ ap (String.◌∷◌ "'") (append_assoc (escape s) "'" t))
    ∙ words-escape s t (sofar o)

pub words-blank :
    (o : Option String) (t : String) → words bare o (" " +++ t) ≡ pushed o (words bare none t)
unfolding words
words-blank o t = ap (words bare o) (one " " t)

-- A text that the shell takes as it stands without quotes.
abbrev pub plain_char : ℕ → Bool
plain_char c =
    not (is_blank c) && not (is_special c) && not (eqb c 39) && not (eqb c 34) && not (eqb c 92)

abbrev pub is_plain : String → Bool
is_plain String.[] = true
is_plain (String.◌∷◌ c s) = plain_char (code c) && is_plain s

words-plain_char :
    (o : Option String) (c : Char) (t : String)
    → plain_char (code c) ≡ true
    → words bare o (String.◌∷◌ c t) ≡ words bare (some (sofar o +++ String.◌∷◌ c "")) t
unfolding words
words-plain_char o c t p = ground (arith, p)

pub words-plain :
    (p t w : String)
    → is_plain p ≡ true
    → words bare (some w) (p +++ t) ≡ words bare (some (w +++ p)) t
words-plain String.[] t w e =
    ap (words bare (some w)) (nil-append t) ∙ ap (λ v. words bare (some v) t) (sym (append-nil w))
words-plain (String.◌∷◌ c p) t w e =
    ap (words bare (some w)) (cons-append c p t)
    ∙ words-plain_char (some w) c (p +++ t) (ground (arith, e))
    ∙ words-plain p t (w +++ String.◌∷◌ c "") (ground (arith, e))
    ∙ ap (λ v. words bare (some v) t) (longer w p c)

-- A piece of a command: a text as it stands, or a quoted one.
pub data Piece : Type 0 where
  plain quoted : String → Piece

abbrev pub print : Piece → String
print (plain s) = s
print (quoted s) = quote s

abbrev pub text_of : Piece → String
text_of (plain s) = s
text_of (quoted s) = s

-- A plain piece has characters, and none that the shell reads otherwise.
abbrev pub IsPiece : Piece → Type 0
IsPiece (plain String.[]) = ⊥
IsPiece (plain (String.◌∷◌ c s)) = is_plain (String.◌∷◌ c s) ≡ true
IsPiece (quoted s) = Unit

pub words-print :
    (p : Piece) (t : String)
    → IsPiece p
    → words bare none (print p +++ t) ≡ words bare (some (text_of p)) t
words-print (plain String.[]) t e = absurd e
words-print (plain (String.◌∷◌ c s)) t e =
    ap (words bare none) (cons-append c s t)
    ∙ words-plain_char none c (s +++ t) (ground (arith, e))
    ∙ words-plain s t ("" +++ String.◌∷◌ c "") (ground (arith, e))
    ∙ ap (λ v. words bare (some v) t) (longer "" s c ∙ nil-append (String.◌∷◌ c s))
words-print (quoted s) t e = words-quote none s t ∙ ap (λ v. words bare (some v) t) (nil-append s)

words-print_end : (p : Piece) → IsPiece p → words_of (print p) ≡ some (text_of p ∷ [])
unfolding words
words-print_end p e = ap words_of (sym (append-nil (print p))) ∙ words-print p "" e

-- A shell reads a command of pieces, with a blank between each two, as the texts of the pieces.
pub words_of-join :
    (ps : List Piece) → All IsPiece ps → words_of (join " " (map print ps)) ≡ some (map text_of ps)
unfolding words join
words_of-join [] e = refl
words_of-join (p ∷ []) e = words-print_end p e.0
words_of-join (p ∷ q ∷ ps) e =
    words-print p (" " +++ join " " (map print (q ∷ ps))) e.0
    ∙ words-blank (some (text_of p)) (join " " (map print (q ∷ ps)))
    ∙ ap (pushed (some (text_of p))) (words_of-join (q ∷ ps) e.1)
