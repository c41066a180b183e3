-- ===== src/CompileTest.antt =====
-- dv/uvm/core_ibex/scripts/compile_test.py: the commands that build the binary of a test, on a store
-- of files.
pub mod Failed
use emucpu.Prelude.{
  ℕ, Bool, true, false, not, ◌&&◌, ◌||◌, any, if◌then◌else◌, List, [], ◌∷◌, ◌++◌, map, Option, none,
  some, Result, ok, raise, ◌>>=◌, map_ok,
}
use emucpu.Prelude.Int.{ℤ, pos, int_eq}
use emucpu.Prelude.Text.{Text, codes, text_eq, join, strip, starts_with, contains, show_int}
use emucpu.Prelude.Dict.{Dict, lookup, insert}
use emucpu.IbexConfig.Value
use emucpu.IbexConfig.Value.{Value}
use emucpu.Metadata.{TestType, riscvdv, directed}
use emucpu.Requirements.Check.{split_on}
use emucpu.ScriptsLib.{replace_from}
use emucpu.ScriptsLib.Format
use emucpu.ScriptsLib.Format.{Item, format_to_cmd, get_run_cmd}
use emucpu.ScriptsLib.RunOne.{path, binary_stream, or_empty, run_one}
use emucpu.Stdlib.OsPath.{join_path}
use emucpu.Stdlib.Shlex.{shlex_split}
use emucpu.RunInstrGen.Reloc.{
  GenError, runtime_error, os_error, type_error, index_error, or_bad_line,
}
use emucpu.RunInstrGen.Main.{
  Setting, Run, ◌then_do◌, of_result, or_runtime_error, placeholder, leave_scratch,
}

-- What `_main` takes from the metadata and the test run; `assembly` is the text of its path.
pub record Build : Type 0 where
  pub testtype : TestType
  pub testname : Text
  pub seed : ℤ
  pub verbose : Bool
  pub isa_ibex : Text
  pub dir_test : Text
  pub assembly : Text
  pub is_discrete_debug_module : Bool
  pub directed_data : Dict Value
  pub customtarget : Text
  pub riscv_dv : Text
  pub extension_dir : Text
  pub environ : Text → Option Text

unfoldable pub objectfile : Build → Text
unfolding join_path
objectfile b = join_path b.dir_test (codes "test.o")

unfoldable pub binaryfile : Build → Text
unfolding join_path
binaryfile b = join_path b.dir_test (codes "test.bin")

unfoldable pub orig_cmds_list : Setting → Text
unfolding join_path
orig_cmds_list w = join_path w.td (codes "orig-cmds.list")

-- `cmd`, before it is formatted
unfoldable pub compile_cmd : Setting → Build → List Item
unfolding get_run_cmd placeholder orig_cmds_list show_int
compile_cmd w b =
    get_run_cmd b.riscv_dv b.extension_dir b.verbose
    ++ (Format.text (codes "--verbose")
        ∷ Format.text (codes "--output")
        ∷ Format.path (placeholder w)
        ∷ Format.text (codes "--steps=gcc_compile")
        ∷ Format.text (codes "--test")
        ∷ Format.text b.testname
        ∷ Format.text (codes "--start_seed")
        ∷ Format.text (show_int b.seed)
        ∷ Format.text (codes "--iterations")
        ∷ Format.text (codes "1")
        ∷ Format.text (codes "--isa")
        ∷ Format.text b.isa_ibex
        ∷ Format.text (codes "--debug")
        ∷ Format.path (orig_cmds_list w)
        ∷ [])

-- `dv_ret`
unfoldable pub run_riscvdv : Setting → Build → Dict Text → Run ℤ
unfolding compile_cmd format_to_cmd run_one join_path
run_riscvdv w b s = elim (or_runtime_error (format_to_cmd w.resolve_path (compile_cmd w b))) [
  | raise e ↦ (s, raise e)
  | ok cmd ↦
      let log = join_path b.dir_test (codes "compile_gen.riscv-dv.log") in
      let done = run_one w.machine b.verbose cmd (path log) false s in
      (done.files, of_result done.returned)
]

-- The loop over the lines of `orig_list`.
unfoldable pub read_cmds : List Text → Result GenError (List (List Text))
unfolding strip shlex_split
read_cmds [] = ok []
read_cmds (line ∷ lines) =
    let rest = read_cmds lines in
    let with_line = (do
      cmd ← or_bad_line (shlex_split (strip line))
      cmds ← rest
      ok (cmd ∷ cmds)) in
    if text_eq (strip line) [] then rest else with_line

unfoldable pub rewrites : Setting → Build → List (Text × Text)
unfolding placeholder objectfile binaryfile
rewrites w b =
    (placeholder w ++ (codes "/asm_test/" ++ (b.testname ++ codes "_0.S")), b.assembly)
    ∷ (placeholder w ++ (codes "/asm_test/" ++ (b.testname ++ codes "_0.o")), objectfile b)
    ∷ (placeholder w ++ (codes "/asm_test/" ++ (b.testname ++ codes "_0.bin")), binaryfile b)
    ∷ []

-- The loop over the rewrites, on a word.
unfoldable pub rewrite_word : List (Text × Text) → Text → Text
unfolding replace_from
rewrite_word [] word = word
rewrite_word ((old, new) ∷ more) word = rewrite_word more (replace_from 0 old new word)

unfoldable pub new_word : Setting → Build → Text → Result GenError Text
unfolding rewrites rewrite_word contains placeholder
new_word w b word =
    let rewritten = rewrite_word (rewrites w b) word in
    if contains (placeholder w) rewritten then raise (runtime_error word) else ok rewritten

-- `new_cmds.pop()`
unfoldable pub without_last : List (List Text) → Result GenError (List (List Text))
without_last [] = raise index_error
without_last (cmd ∷ []) = ok []
without_last (cmd ∷ next ∷ cmds) = without_last (next ∷ cmds) >>= λ more. ok (cmd ∷ more)

unfoldable pub with_linker_script : Build → Text → Text
unfolding starts_with join_path
with_linker_script b token =
    if starts_with token (codes "-T")
    then codes "-T" ++ join_path b.customtarget (codes "ddm_link.ld")
    else token

-- A command of `objcopy`: a variable that is not set is formatted as an empty word.
unfoldable pub objcopy_cmd : Build → Text → Text → Text → List Text
unfolding join_path objectfile
objcopy_cmd b form option out =
    or_empty (b.environ (codes "RISCV_OBJCOPY"))
    ∷ codes "-O"
    ∷ form
    ∷ option
    ∷ codes ".debug_module"
    ∷ option
    ∷ codes ".dm_scratch"
    ∷ objectfile b
    ∷ join_path b.dir_test out
    ∷ []

unfoldable pub objcopy_cmds : Build → List (List Text)
unfolding objcopy_cmd
objcopy_cmds b =
    objcopy_cmd b (codes "verilog") (codes "--only-section") (codes "test.dm.vmem")
    ∷ objcopy_cmd b (codes "verilog") (codes "--remove-section") (codes "test.main.vmem")
    ∷ objcopy_cmd b (codes "binary") (codes "--only-section") (codes "test.dm.bin")
    ∷ objcopy_cmd b (codes "binary") (codes "--remove-section") (codes "test.main.bin")
    ∷ []

unfoldable pub with_debug_module : Build → List (List Text) → Result GenError (List (List Text))
unfolding without_last with_linker_script objcopy_cmds
with_debug_module b new_cmds =
    if b.is_discrete_debug_module
    then (do
      kept ← without_last new_cmds
      ok (map (map (with_linker_script b)) kept ++ objcopy_cmds b))
    else ok new_cmds

-- The file of commands, read before the temporary directory goes.
unfoldable pub orig_cmds : Setting → Dict Text → Run (List (List Text))
unfolding orig_cmds_list read_cmds split_on
orig_cmds w s = elim (lookup (orig_cmds_list w) s) [
  | none ↦ (s, raise (os_error (orig_cmds_list w)))
  | some src ↦ (s, read_cmds (split_on 10 src))
]

-- What get_riscvdv_compile_cmds returns: the exit code of riscv-dv, or commands.
pub data Returned : Type 0 where
  exit_code : ℤ → Returned
  cmd_list : List (List Text) → Returned

abbrev as_commands : Result GenError (List (List Text)) → Result GenError Returned
as_commands (ok cmds) = ok (cmd_list cmds)
as_commands (raise e) = raise e

abbrev on_code : Setting → ℤ → Dict Text → Run Returned
on_code w dv_ret s =
    if int_eq dv_ret (pos 0)
    then orig_cmds w s then_do (λ cmds t. (t, ok (cmd_list cmds)))
    else (s, ok (exit_code dv_ret))

abbrev massaged : Setting → Build → Returned → Result GenError Returned
massaged w b (exit_code c) = ok (exit_code c)
massaged w b (cmd_list cmds) =
    as_commands (map_ok (map_ok (new_word w b)) cmds >>= λ new_cmds. with_debug_module b new_cmds)

unfoldable pub get_riscvdv_compile_cmds : Setting → Build → Dict Text → Run Returned
unfolding run_riscvdv orig_cmds leave_scratch new_word with_debug_module map_ok ◌then_do◌
get_riscvdv_compile_cmds w b s =
    leave_scratch w (run_riscvdv w b s then_do (λ dv_ret t. on_code w dv_ret t))
    then_do (λ returned t. (t, massaged w b returned))

-- The text that a formatted string has for an entry of the directed test.
abbrev shown : Text → Dict Value → Text
shown key d = elim (lookup key d) [ some (Value.text s) ↦ s | _ ↦ codes "None" ]

abbrev is_set : Option Text → Bool
is_set none = false
is_set (some s) = true

unfoldable pub gcc_opts_of : Build → Result GenError Text
unfolding lookup
gcc_opts_of b = elim (lookup (codes "gcc_opts") b.directed_data) [
  | some (Value.text s) ↦ ok s
  | _ ↦ raise (type_error (codes "gcc_opts"))
]

-- The entries of a directed test are texts, if they are there.
unfoldable pub get_directed_compile_cmds : Build → Result GenError (List (List Text))
unfolding objectfile binaryfile gcc_opts_of join shlex_split lookup
get_directed_compile_cmds b =
    let is_missing : Text → Bool = λ e. not (is_set (b.environ e)) in
    let named = codes "RISCV_TOOLCHAIN" ∷ codes "RISCV_GCC" ∷ codes "RISCV_OBJCOPY" ∷ [] in
    let cmds = (do
      gcc_opts ← gcc_opts_of b
      gcc ← or_bad_line (
          shlex_split (
            join (codes " ") (
              or_empty (b.environ (codes "RISCV_GCC"))
              ∷ gcc_opts
              ∷ (codes "-I" ++ shown (codes "includes") b.directed_data)
              ∷ (codes "-T" ++ shown (codes "ld_script") b.directed_data)
              ∷ (codes "-o " ++ objectfile b)
              ∷ shown (codes "test_srcs") b.directed_data
              ∷ [])))
      bin ← or_bad_line (
          shlex_split (
            join (codes " ") (
              or_empty (b.environ (codes "RISCV_OBJCOPY"))
              ∷ (codes "-O binary " ++ objectfile b)
              ∷ binaryfile b
              ∷ [])))
      ok (gcc ∷ bin ∷ [])) in
    if any is_missing named then raise (runtime_error []) else cmds

-- The comprehension over `cmds`, which an exit code cannot be.
abbrev returned_cmds : Returned → Result GenError (List (List Text))
returned_cmds (exit_code c) = raise (type_error (codes "int"))
returned_cmds (cmd_list cmds) = ok cmds

unfoldable pub compile_log : Build → Text
unfolding join_path
compile_log b = of_type b.testtype
  where
    of_type : TestType → Text
    of_type riscvdv = join_path b.dir_test (codes "compile.riscvdv.log")
    of_type directed = join_path b.dir_test (codes "compile.directed.log")

-- The commands in sequence, up to the first that fails, and what is returned, `none` for None.
unfoldable pub run_compile : Setting → Build → List (List Text) → Dict Text → Run (Option ℤ)
unfolding run_one compile_log
run_compile w b [] s = (s, ok none)
run_compile w b (cmd ∷ cmds) s =
    let done = run_one w.machine b.verbose cmd (binary_stream (compile_log b)) false s in
    let rest = run_compile w b cmds done.files in
    elim (of_result done.returned) [
      | raise e ↦ (done.files, raise e)
      | ok ret ↦ if int_eq ret (pos 0) then rest else (done.files, ok (some ret))
    ]

unfoldable pub run_all_compile : Setting → Build → List (List Text) → Dict Text → Run (Option ℤ)
unfolding run_compile compile_log
run_all_compile w b cmds s =
    if w.machine.writable (compile_log b)
    then run_compile w b cmds (insert (compile_log b) [] s)
    else (s, raise (os_error (compile_log b)))

abbrev cmds_for : TestType → Setting → Build → Dict Text → Run (List (List Text))
cmds_for riscvdv w b s =
    get_riscvdv_compile_cmds w b s then_do (λ returned t. (t, returned_cmds returned))
cmds_for directed w b s = (s, get_directed_compile_cmds b)

-- `_main`
unfoldable pub compile_test : Setting → Build → Dict Text → Run (Option ℤ)
unfolding get_riscvdv_compile_cmds get_directed_compile_cmds run_all_compile ◌then_do◌
compile_test w b s = cmds_for b.testtype w b s then_do (λ cmds t. run_all_compile w b cmds t)
