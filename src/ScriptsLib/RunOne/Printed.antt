-- ===== src/ScriptsLib/RunOne/Printed.antt =====
-- What a verbose run prints is the command that it runs.
use emucpu.Prelude.{List, [], ◌∷◌, ◌++◌, ok, ◌>>=◌, ◌≡◌, refl, ◌∙◌}
use mathlib.Core.List.{append-nil}
use emucpu.Prelude.Text.{Text, codes}
use emucpu.Stdlib.Shlex.{shlex_split, words_from, word, blank, sort_of, quote}
use emucpu.Stdlib.Shlex.Quoted.{words_from-command, words_from_word-quote, shlex_split-quote}
use emucpu.ScriptsLib.RunOne.{
  Redirect, no_redirect, name, path, stream, binary_stream, command_text, path_name, print_line,
}

-- The words that stand for a redirection.
abbrev pub redirect_words : Redirect → List Text
redirect_words no_redirect = []
redirect_words (name s) = (codes ">" ++ s) ∷ codes "2>&1" ∷ []
redirect_words (path p) = (codes ">>" ++ path_name p) ∷ codes "2>&1" ∷ []
redirect_words (binary_stream s) = (codes ">>" ++ s) ∷ codes "2>&1" ∷ []
redirect_words (stream s) = (codes ">>" ++ s) ∷ codes "2>&1" ∷ []

words_from-plus :
    (s : Text)
    → words_from blank (codes "+ " ++ s) ≡ words_from blank s >>= λ rest. ok (codes "+" ∷ rest)
unfolding words_from sort_of
words_from-plus s = refl

words_from-redirected :
    (w : Text) (cmd : List Text) (rest : Text) {more : List Text}
    → words_from blank rest ≡ ok more
    → words_from blank (codes "+ " ++ (command_text (w ∷ cmd) ++ (codes " " ++ rest)))
      ≡ ok (codes "+" ∷ (w ∷ cmd) ++ more)
unfolding command_text
words_from-redirected w cmd rest e =
    words_from-plus (command_text (w ∷ cmd) ++ (codes " " ++ rest))
    ∙ rw (words_from-command w cmd rest e) refl

words_from-alone :
    (w : Text) (cmd : List Text)
    → words_from blank (codes "+ " ++ (command_text (w ∷ cmd) ++ []))
      ≡ ok (codes "+" ∷ (w ∷ cmd) ++ [])
unfolding command_text shlex_split
words_from-alone w cmd =
    words_from-plus (command_text (w ∷ cmd) ++ [])
    ∙ rw (append-nil (command_text (w ∷ cmd)), shlex_split-quote (w ∷ cmd), append-nil cmd) refl

words_from-target :
    (token s : Text)
    → words_from (word token) (quote s ++ codes " 2>&1") ≡ ok ((token ++ s) ∷ codes "2>&1" ∷ [])
unfolding words_from sort_of
words_from-target token s = words_from_word-quote token s (codes " 2>&1")

-- The line that `run_one` prints for a command, divided into words by `shlex.split`, is `+`, the
-- words of the command, however they are spelled, and the words of the redirection.
pub shlex_split-print_line :
    (w : Text) (cmd : List Text) (redirect : Redirect)
    → shlex_split (print_line (w ∷ cmd) redirect)
      ≡ ok (codes "+" ∷ (w ∷ cmd) ++ redirect_words redirect)
unfolding shlex_split print_line
shlex_split-print_line w cmd no_redirect = words_from-alone w cmd
shlex_split-print_line w cmd (name s) =
    words_from-redirected w cmd (codes ">" ++ (quote s ++ codes " 2>&1"))
      (words_from-target (codes ">") s)
shlex_split-print_line w cmd (path p) =
    words_from-redirected w cmd (codes ">>" ++ (quote (path_name p) ++ codes " 2>&1"))
      (words_from-target (codes ">>") (path_name p))
shlex_split-print_line w cmd (binary_stream s) =
    words_from-redirected w cmd (codes ">>" ++ (quote s ++ codes " 2>&1"))
      (words_from-target (codes ">>") s)
shlex_split-print_line w cmd (stream s) =
    words_from-redirected w cmd (codes ">>" ++ (quote s ++ codes " 2>&1"))
      (words_from-target (codes ">>") s)
