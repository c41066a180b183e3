-- ===== src/Stdlib/OsPath.antt =====
-- `os.path.join`, `os.path.normpath` and `os.path.abspath`, on POSIX paths.
use emucpu.Prelude.{◌||◌, ◌==◌, if◌then◌else◌, List, [], ◌∷◌, ◌++◌, drop, ◌≡◌, refl}
use emucpu.Prelude.Text.{Text, codes, text_eq, starts_with, ends_with, join}
use emucpu.Requirements.Check.{split_on}

-- `os.path.join(a, b)`
unfoldable pub join_path : Text → Text → Text
unfolding starts_with ends_with
join_path a [] = if ends_with a (codes "/") || text_eq a [] then a else a ++ codes "/"
join_path a (c ∷ b) =
    if c == b'/'
    then c ∷ b
    else if ends_with a (codes "/") || text_eq a []
    then a ++ c ∷ b
    else a ++ b'/' ∷ c ∷ b

-- The loop of `normpath` on an absolute path, with the last component in front.
unfoldable pub components_from : List Text → List Text → List Text
unfolding text_eq
components_from stack [] = stack
components_from stack (c ∷ comps) =
    components_from
      (if text_eq c [] || text_eq c (codes ".")
        then stack
        else if text_eq c (codes "..")
        then drop 1 stack
        else c ∷ stack)
      comps

abbrev reversed_onto : List Text → List Text → List Text
reversed_onto [] out = out
reversed_onto (c ∷ stack) out = reversed_onto stack (c ∷ out)

-- The slashes that an absolute path begins with: two stay two.
unfoldable pub root_of : Text → Text
unfolding starts_with
root_of path =
    if starts_with path (codes "///")
    then codes "/"
    else if starts_with path (codes "//")
    then codes "//"
    else codes "/"

-- `os.path.normpath`, for an absolute path.
unfoldable pub norm_path : Text → Text
unfolding components_from root_of split_on join
norm_path path =
    root_of path ++ join (codes "/") (reversed_onto (components_from [] (split_on b'/' path)) [])

-- `os.path.abspath(path)`, in the working directory `cwd`, which is absolute.
unfoldable pub abs_path : Text → Text → Text
unfolding norm_path join_path
abs_path cwd path = norm_path (join_path cwd path)

abs_path_runs :
    (abs_path (codes "/w") (codes "a/./b//../c/") ≡ codes "/w/a/c")
    × (abs_path (codes "/w") (codes "//x/..") ≡ codes "//")
    × (abs_path (codes "/") [] ≡ codes "/")
unfolding abs_path
abs_path_runs = (refl, refl, refl)
