-- ===== src/Stdlib/Shlex/Quoted.antt =====
-- A quoted word is read back as it was.
use emucpu.Prelude.{
  ℕ, true, false, not, ◌==◌, List, [], ◌∷◌, ◌++◌, map, any, ok, arith, ◌≡◌, refl, sym, ◌∙◌,
  Bool-cases, ==_iff, inl, inr,
}
use mathlib.Core.Path.{subst}
use mathlib.Core.List.{append_assoc, append-nil}
use emucpu.Prelude.Text.{Text, codes, join}
use emucpu.Stdlib.Shlex.{
  blank, word, quotation, sort_of, other, step_quotation, words_from, shlex_split, is_safe,
  escape_marks, quote,
}

sort_of_safe : (c : ℕ) → is_safe c ≡ true → sort_of c ≡ other
unfolding sort_of is_safe
sort_of_safe c h = ground arith

words_from-safe :
    (token s rest : Text)
    → any (λ c. not (is_safe c)) s ≡ false
    → words_from (word token) (s ++ rest) ≡ words_from (word (token ++ s)) rest
unfolding words_from
words_from-safe token [] rest h = rw append-nil refl
words_from-safe token (c ∷ s) rest h =
    let safe : is_safe c ≡ true = ground arith in
    rw (words_from, sort_of_safe c safe)
      (words_from-safe (token ++ c ∷ []) s rest (ground arith) ∙ rw append_assoc refl)

escape_marks-plain :
    (c : ℕ) (s : Text) → (c == 39) ≡ false → escape_marks (c ∷ s) ≡ c ∷ escape_marks s
unfolding escape_marks
escape_marks-plain c s plain = rw plain refl

step_quotation-plain :
    (c : ℕ) (token : Text)
    → (c == 39) ≡ false
    → step_quotation 39 c token ≡ quotation 39 (token ++ c ∷ [])
step_quotation-plain c token plain = ground arith

words_from-mark :
    (token s rest : Text)
    → words_from (quotation 39 token) (escape_marks (39 ∷ s) ++ (39 ∷ rest))
      ≡ words_from (quotation 39 (token ++ 39 ∷ [])) (escape_marks s ++ (39 ∷ rest))
unfolding words_from sort_of escape_marks
words_from-mark token s rest = refl

words_from-marks :
    (token s rest : Text)
    → words_from (quotation 39 token) (escape_marks s ++ (39 ∷ rest))
      ≡ words_from (word (token ++ s)) rest
unfolding words_from
words_from-marks token [] rest = unfold escape_marks in rw append-nil refl
words_from-marks token (c ∷ s) rest = elim (Bool-cases (c == 39)) [
  | inl mark ↦
      subst
        (λ d.
          words_from (quotation 39 token) (escape_marks (d ∷ s) ++ (39 ∷ rest))
          ≡ words_from (word (token ++ d ∷ s)) rest)
        (sym ((==_iff c 39).0 mark))
        (words_from-mark token s rest
          ∙ words_from-marks (token ++ 39 ∷ []) s rest
          ∙ rw append_assoc refl)
  | inr plain ↦
      rw (escape_marks-plain c s plain, words_from, step_quotation-plain c token plain)
        (words_from-marks (token ++ c ∷ []) s rest ∙ rw append_assoc refl)
]

words_from-quoted :
    (w rest : Text)
    → words_from blank ((39 ∷ (escape_marks w ++ 39 ∷ [])) ++ rest) ≡ words_from (word w) rest
unfolding words_from sort_of
words_from-quoted w rest = rw append_assoc (words_from-marks [] w rest)

words_from-unquoted :
    (c : ℕ) (s rest : Text)
    → any (λ d. not (is_safe d)) (c ∷ s) ≡ false
    → words_from blank (c ∷ (s ++ rest)) ≡ words_from (word (c ∷ s)) rest
unfolding words_from
words_from-unquoted c s rest safe =
    let here : is_safe c ≡ true = ground arith in
    rw (words_from, sort_of_safe c here) (words_from-safe (c ∷ []) s rest (ground arith))

words_from-quote : (w rest : Text) → words_from blank (quote w ++ rest) ≡ words_from (word w) rest
unfolding quote
words_from-quote [] rest = unfold words_from sort_of in refl
words_from-quote (c ∷ s) rest = elim (Bool-cases (any (λ d. not (is_safe d)) (c ∷ s))) [
  | inl unsafe ↦ rw (quote, unsafe) (words_from-quoted (c ∷ s) rest)
  | inr safe ↦ rw (quote, safe) (words_from-unquoted c s rest safe)
]

words_from_word-mark :
    (token s : Text) → words_from (word token) (39 ∷ s) ≡ words_from (quotation 39 token) s
unfolding words_from sort_of
words_from_word-mark token s = refl

-- A quoted word that follows directly on what was read of a word is its end.
pub words_from_word-quote :
    (token w rest : Text)
    → words_from (word token) (quote w ++ rest) ≡ words_from (word (token ++ w)) rest
unfolding quote
words_from_word-quote token [] rest = unfold words_from sort_of in rw append-nil refl
words_from_word-quote token (c ∷ s) rest = elim (Bool-cases (any (λ d. not (is_safe d)) (c ∷ s))) [
  | inl unsafe ↦
      rw (quote, unsafe)
        (words_from_word-mark token ((escape_marks (c ∷ s) ++ codes "'") ++ rest)
          ∙ rw append_assoc (words_from-marks token (c ∷ s) rest))
  | inr safe ↦ rw (quote, safe) (words_from-safe token (c ∷ s) rest safe)
]

-- The words of a command, before more text behind a space.
pub words_from-command :
    (w : Text) (cmd : List Text) (rest : Text) {more : List Text}
    → words_from blank rest ≡ ok more
    → words_from blank (join (codes " ") (map quote (w ∷ cmd)) ++ (codes " " ++ rest))
      ≡ ok ((w ∷ cmd) ++ more)
unfolding join words_from sort_of
words_from-command w [] rest e = words_from-quote w (codes " " ++ rest) ∙ rw e refl
words_from-command w (v ∷ cmd) rest e =
    let text = join (codes " ") (map quote (v ∷ cmd)) in
    rw (append_assoc (quote w ++ codes " ") text (codes " " ++ rest), append_assoc)
      (words_from-quote w (codes " " ++ (text ++ (codes " " ++ rest)))
        ∙ rw (words_from-command v cmd rest e) refl)

-- A command that is printed with its words quoted and a space between them is read back by
-- `shlex.split` as the words that it had.
pub shlex_split-quote : (cmd : List Text) → shlex_split (join (codes " ") (map quote cmd)) ≡ ok cmd
unfolding shlex_split join words_from sort_of
shlex_split-quote [] = refl
shlex_split-quote (w ∷ []) = rw (← append-nil (quote w)) (words_from-quote w [])
shlex_split-quote (w ∷ v ∷ cmd) =
    let more = join (codes " ") (map quote (v ∷ cmd)) in
    rw append_assoc (words_from-quote w (codes " " ++ more) ∙ rw (shlex_split-quote (v ∷ cmd)) refl)
