-- ===== src/Sv2v/Transform.antt =====
-- `transform_one` and `transform` of util/sv2v_in_place.py, on a store of files.
pub mod Files
pub mod Untouched
pub mod Outputs
use emucpu.Prelude.{
  ℕ, suc, Bool, true, false, not, if◌then◌else◌, List, [], ◌∷◌, ◌++◌, map, select, Option, none,
  some,
}
use emucpu.Prelude.Int.{ℤ, pos, int_eq}
use emucpu.Prelude.Text.{Text, codes, show_nat, starts_with}
use emucpu.Prelude.Dict.{Dict, lookup, insert, mem_text}
use emucpu.Sv2v.Paths.{Search}

-- The files by their paths, each with its text.
abbrev pub Store : Type 0
Store = Dict Text

-- What the program meets: which paths may be opened for writing, the directory that
-- `tempfile.TemporaryDirectory` made, and a run of a command on the files as they are, with its exit
-- code and its output, or `none` if it cannot be started.
pub record World : Type 0 where
  pub writable : Text → Bool
  pub tmpdir : Text
  pub run : List Text → Store → Option (ℤ × Text)

-- RuntimeError with what its message is made of, and OSError.
pub data Fault : Type 0 where
  runtime_error : (sv_path : Text) (exit_code : ℤ) (cmd : List Text) → Fault
  os_error : Text → Fault

-- The files after some code, and what it raised.
abbrev pub Outcome : Type 0
Outcome = Store × Option Fault

unfoldable pub then_run : Outcome → (Store → Outcome) → Outcome
then_run (s, none) next = next s
then_run (s, some e) next = (s, some e)

-- The arguments of `transform` but the list of files.
pub record Options : Type 0 where
  pub sv2v : Text
  pub defines : List Text
  pub defines_if : List (Search × Text)
  pub incdirs : List Text
  pub pkg_paths : List Text

-- `cmd` of `transform_one`.
unfoldable pub command : Options → List Text → Text → List Text
unfolding mem_text
command o defines sv_path =
    (o.sv2v ∷ codes "--exclude=assert" ∷ [])
    ++ map (λ d. codes "--define=" ++ d) defines
    ++ map (λ d. codes "--incdir=" ++ d) o.incdirs
    ++ o.pkg_paths
    ++ (if mem_text sv_path o.pkg_paths then [] else sv_path ∷ [])

-- The exit code decides, once the output has been written.
unfoldable pub checked_run : Options → Text → List Text → Store → Text → Option (ℤ × Text) → Outcome
checked_run o sv_path cmd opened dst_path none = (opened, some (os_error o.sv2v))
checked_run o sv_path cmd opened dst_path (some (code, out)) =
    let written = insert dst_path out opened in
    if int_eq code (pos 0)
    then (written, none)
    else (written, some (runtime_error sv_path code cmd))

unfoldable pub transform_one : World → Options → List Text → Text → Text → Store → Outcome
unfolding command checked_run
transform_one w o defines sv_path dst_path s =
    let cmd = command o defines sv_path in
    let opened = insert dst_path [] s in
    if w.writable dst_path
    then checked_run o sv_path cmd opened dst_path (w.run cmd opened)
    else (s, some (os_error dst_path))

-- `extra_file_defines`
unfoldable pub extra_defines : List (Search × Text) → Text → List Text
extra_defines [] src_path = []
extra_defines ((search, define) ∷ more) src_path =
    if search src_path then define ∷ extra_defines more src_path else extra_defines more src_path

-- `os.path.join(tmpdir, str(idx))`
unfoldable pub temp_dir : World → Text
temp_dir w = w.tmpdir ++ codes "/"

unfoldable pub temp_path : World → ℕ → Text
unfolding temp_dir show_nat
temp_path w idx = temp_dir w ++ show_nat idx

-- The first loop, from an index on.
unfoldable pub run_all : World → Options → ℕ → List Text → Store → Outcome
unfolding transform_one extra_defines temp_path then_run
run_all w o idx [] s = (s, none)
run_all w o idx (src_path ∷ paths) s =
    then_run
      (transform_one w o (o.defines ++ extra_defines o.defines_if src_path) src_path
        (temp_path w idx) s)
      (λ t. run_all w o (suc idx) paths t)

-- `shutil.copy(dst_path, src_path)`
unfoldable pub copy_back : World → Text → Text → Store → Outcome
copy_back w dst_path src_path s = elim (lookup dst_path s) [
  | none ↦ (s, some (os_error dst_path))
  | some content ↦
      if w.writable src_path
      then (insert src_path content s, none)
      else (s, some (os_error src_path))
]

-- The second loop; the paths that the first one wrote are those of the indices.
unfoldable pub copy_all : World → ℕ → List Text → Store → Outcome
unfolding copy_back temp_path then_run
copy_all w idx [] s = (s, none)
copy_all w idx (src_path ∷ paths) s =
    then_run (copy_back w (temp_path w idx) src_path s) (λ t. copy_all w (suc idx) paths t)

-- The path lies in the temporary directory.
unfoldable pub is_temp : World → Text → Bool
unfolding temp_dir starts_with
is_temp w path = starts_with path (temp_dir w)

-- The end of the `with` block, which an exception passes through too.
unfoldable pub clean_up : World → Outcome → Outcome
unfolding is_temp
clean_up w (s, e) = (select (λ file. not (is_temp w file.0)) s, e)

unfoldable pub transform : World → Options → List Text → Store → Outcome
unfolding run_all copy_all clean_up then_run
transform w o paths s = clean_up w (then_run (run_all w o 0 paths s) (λ t. copy_all w 0 paths t))
