-- ===== src/RunInstrGen/Copies.antt =====
-- `do_file_copies` of run_instr_gen.py, on a store of files.
pub mod Effect
use emucpu.Prelude.{Bool, true, false, not, ◌&&◌, if◌then◌else◌, List, [], ◌∷◌, Option, none, some}
use emucpu.Prelude.Text.{Text}
use emucpu.Prelude.Dict.{Dict, lookup, insert}
use emucpu.Stdlib.OsPath.{join_path}
use emucpu.RunInstrGen.Reloc.{GenError, runtime_error, os_error}

-- The files after some code, and what it raised.
abbrev pub Copying : Type 0
Copying = Dict Text × Option GenError

-- A triple of `copy_rules`.
pub record CopyRule : Type 0 where
  pub src_name : Text
  pub dst_name : Text
  pub copy_on_fail : Bool

-- The rest of the code runs if nothing was raised.
unfoldable pub and_then : Copying → (Dict Text → Copying) → Copying
and_then (s, none) next = next s
and_then (s, some e) next = (s, some e)

-- The body of the loop; the first argument says which paths may be written.
unfoldable pub copy_one : (Text → Bool) → Text → Text → Bool → CopyRule → Dict Text → Copying
unfolding join_path
copy_one writable src_dir dst_dir run_failed r s =
    let dst_path = join_path dst_dir r.dst_name in
    if run_failed && not r.copy_on_fail
    then (s, none)
    else elim (lookup (join_path src_dir r.src_name) s) [
      | none ↦ if run_failed then (s, none) else (s, some (runtime_error r.src_name))
      | some content ↦
          if writable dst_path
          then (insert dst_path content s, none)
          else (s, some (os_error dst_path))
    ]

unfoldable pub do_file_copies :
    (Text → Bool) → Text → Text → List CopyRule → Bool → Dict Text → Copying
unfolding copy_one and_then
do_file_copies writable src_dir dst_dir [] run_failed s = (s, none)
do_file_copies writable src_dir dst_dir (r ∷ copy_rules) run_failed s =
    and_then (copy_one writable src_dir dst_dir run_failed r s)
      λ t. do_file_copies writable src_dir dst_dir copy_rules run_failed t
