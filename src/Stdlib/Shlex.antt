-- ===== src/Stdlib/Shlex.antt =====
-- `shlex.split` and `shlex.quote`.
pub mod Quoted
use emucpu.Prelude.{
  ℕ, Bool, true, false, not, ◌&&◌, ◌||◌, ◌==◌, leb, any, if◌then◌else◌, List, [], ◌∷◌, ◌++◌, Result,
  ok, raise, ◌>>=◌, ◌≡◌, refl,
}
use emucpu.Prelude.Text.{Text, codes}

-- ValueError: no closing quotation, or no escaped character.
pub data ShlexError : Type 0 where
  no_closing_quotation : ShlexError
  no_escaped_character : ShlexError

-- Between words; in a word, with what it holds; in a quotation of one mark; behind a backslash in a
-- word; behind a backslash in a quotation of double marks.
pub data Reading : Type 0 where
  blank : Reading
  word : Text → Reading
  quotation : (mark : ℕ) → Text → Reading
  escaped : Text → Reading
  escaped_quotation : Text → Reading

-- The characters that the reader treats alike.
pub data Sort : Type 0 where
  space : Sort
  quote_mark : Sort
  backslash : Sort
  other : Sort

unfoldable pub sort_of : ℕ → Sort
sort_of c =
    if c == b' ' || c == 9 || c == 10 || c == 13
    then space
    else if c == 39 || c == 34
    then quote_mark
    else if c == 92
    then backslash
    else other

-- A reading before a character that is no white space, or is quoted.
abbrev step_word : ℕ → Sort → Text → Reading
step_word c quote_mark token = quotation c token
step_word c backslash token = escaped token
step_word c _ token = word (token ++ c ∷ [])

abbrev step_quotation : ℕ → ℕ → Text → Reading
step_quotation mark c token =
    if c == mark
    then word token
    else if c == 92 && mark == 34
    then escaped_quotation token
    else quotation mark (token ++ c ∷ [])

-- In double quotation marks a backslash stays, unless it stands before a backslash or such a mark.
abbrev step_escaped : ℕ → Text → Text
step_escaped c token = if c == 92 || c == 34 then token ++ c ∷ [] else token ++ 92 ∷ c ∷ []

abbrev is_blank : Sort → Bool
is_blank space = true
is_blank _ = false

-- The words from a reading on. A word that was begun counts, also if it is empty: it was quoted.
unfoldable pub words_from : Reading → Text → Result ShlexError (List Text)
unfolding sort_of
words_from blank [] = ok []
words_from (word token) [] = ok (token ∷ [])
words_from (quotation mark token) [] = raise no_closing_quotation
words_from (escaped token) [] = raise no_escaped_character
words_from (escaped_quotation token) [] = raise no_escaped_character
words_from blank (c ∷ s) =
    words_from (if is_blank (sort_of c) then blank else step_word c (sort_of c) []) s
words_from (word token) (c ∷ s) =
    let ended = words_from blank s >>= λ rest. ok (token ∷ rest) in
    let longer = words_from (step_word c (sort_of c) token) s in
    if is_blank (sort_of c) then ended else longer
words_from (quotation mark token) (c ∷ s) = words_from (step_quotation mark c token) s
words_from (escaped token) (c ∷ s) = words_from (word (token ++ c ∷ [])) s
words_from (escaped_quotation token) (c ∷ s) = words_from (quotation 34 (step_escaped c token)) s

-- `shlex.split(s)`
unfoldable pub shlex_split : Text → Result ShlexError (List Text)
unfolding words_from
shlex_split s = words_from blank s

shlex_split_runs :
    (shlex_split (codes " a  b\\ c 'd e'f '' \"x\\y\\\"\" ")
      ≡ ok (codes "a" ∷ codes "b c" ∷ codes "d ef" ∷ [] ∷ codes "x\\y\"" ∷ []))
    × (shlex_split (codes "a 'b") ≡ raise no_closing_quotation)
unfolding shlex_split
shlex_split_runs = (refl, refl)

-- `[\w@%+=:,./-]`, for ASCII.
unfoldable pub is_safe : ℕ → Bool
is_safe c =
    (leb b'a' c && leb c b'z')
    || (leb b'A' c && leb c b'Z')
    || (leb b'+' c && leb c b':')
    || c == b'@'
    || c == b'%'
    || c == b'='
    || c == b'_'

-- `s.replace("'", "'\"'\"'")`
unfoldable pub escape_marks : Text → Text
escape_marks [] = []
escape_marks (c ∷ s) = (if c == 39 then codes "'\"'\"'" else c ∷ []) ++ escape_marks s

-- `shlex.quote(s)`
unfoldable pub quote : Text → Text
unfolding is_safe escape_marks
quote [] = codes "''"
quote (c ∷ s) =
    if any (λ d. not (is_safe d)) (c ∷ s)
    then codes "'" ++ escape_marks (c ∷ s) ++ codes "'"
    else c ∷ s
