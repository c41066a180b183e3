-- ===== src/Sv2v/Paths.antt =====
-- Lists of paths, the kinds of path, and the `--define-if` argument of util/sv2v_in_place.py.
pub mod Defines
use emucpu.Prelude.{
  ℕ, Bool, true, false, ◌||◌, ◌==◌, if◌then◌else◌, List, [], ◌∷◌, map, select, Option, none, some,
  Result, ok, raise, ◌≡◌, refl,
}
use emucpu.Prelude.Text.{Text, codes, text_eq, strip, ends_with}

abbrev put_on : ℕ → List Text → List Text
put_on c [] = (c ∷ []) ∷ []
put_on c (line ∷ lines) = (c ∷ line) ∷ lines

-- The lines that a file yields, without their ends: the last one counts if anything stands on it.
unfoldable pub lines_of : Text → List Text
lines_of [] = []
lines_of (c ∷ s) = if c == b'\n' then [] ∷ lines_of s else put_on c (lines_of s)

-- `read_file_list` on a file's text.
unfoldable pub read_file_list : Text → List Text
unfolding lines_of
read_file_list content = map strip (lines_of content)

read_file_list_runs :
    read_file_list (codes "a.sv\n b_pkg.sv\n\nc")
    ≡ codes "a.sv" ∷ codes "b_pkg.sv" ∷ [] ∷ codes "c" ∷ []
unfolding read_file_list strip
read_file_list_runs = refl

-- What follows the last `/`.
unfoldable pub base_name : Text → Text
base_name s = after s s
  where
    after : Text → Text → Text
    after base [] = base
    after base (c ∷ r) = if c == b'/' then after r r else after base r

unfoldable pub drop_dots : Text → Text
drop_dots [] = []
drop_dots (c ∷ s) = if c == b'.' then drop_dots s else c ∷ s

-- From the last dot on.
unfoldable pub from_dot : Text → Text
from_dot [] = []
from_dot (c ∷ s) = elim (from_dot s) [ [] ↦ if c == b'.' then c ∷ s else [] | d ∷ ext ↦ d ∷ ext ]

-- `os.path.splitext(path)[1]`: dots in front of a name do not begin an extension.
unfoldable pub extension : Text → Text
unfolding base_name drop_dots from_dot
extension path = from_dot (drop_dots (base_name path))

extension_runs :
    (extension (codes "rtl.d/.x.core.sv") ≡ codes ".sv") × (extension (codes "rtl.d/.sv") ≡ [])
unfolding extension
extension_runs = (refl, refl)

-- The three lists of `main`; a package is in the first one too.
unfoldable pub sv_paths : List Text → List Text
unfolding extension
sv_paths paths = select (λ path. text_eq (extension path) (codes ".sv")) paths

unfoldable pub svh_paths : List Text → List Text
unfolding extension
svh_paths paths = select (λ path. text_eq (extension path) (codes ".svh")) paths

unfoldable pub pkg_paths : List Text → List Text
unfolding ends_with
pkg_paths paths = select (λ path. ends_with path (codes "pkg.sv")) paths

-- `arg.rsplit(':', 1)`, where there is a colon.
unfoldable pub split_last_colon : Text → Option (Text × Text)
split_last_colon [] = none
split_last_colon (c ∷ s) = elim (split_last_colon s) [
  | some parts ↦ some (c ∷ parts.0, parts.1)
  | none ↦ if c == b':' then some ([], s) else none
]

pub data DefineError : Type 0 where
  no_colon : Text → DefineError
  bad_regex : Text → DefineError

-- `re.search` of a pattern, as a test.
abbrev pub Search : Type 0
Search = Text → Bool

-- `parse_define_if`; `re.compile` is a parameter.
unfoldable pub parse_define_if : (Text → Option Search) → Text → Result DefineError (Search × Text)
unfolding split_last_colon
parse_define_if compile arg = elim (split_last_colon arg) [
  | none ↦ raise (no_colon arg)
  | some parts ↦ elim (compile parts.0) [
    | none ↦ raise (bad_regex parts.0)
    | some search ↦ ok (search, parts.1)
  ]
]
