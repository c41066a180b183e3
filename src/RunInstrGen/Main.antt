-- ===== src/RunInstrGen/Main.antt =====
-- `_main` of run_instr_gen.py, on a store of files. The object of the test run that it exports at its
-- end is not kept.
pub mod Copied
use emucpu.Prelude.{
  ℕ, zero, suc, ◌+◌, ◌-◌, ◌*◌, ◌/◌, ◌%◌, Bool, true, false, not, ◌&&◌, ◌||◌, ◌==◌, leb, ltb,
  if◌then◌else◌, List, [], ◌∷◌, ◌++◌, map, select, Option, none, some, Result, ok, raise, ◌>>=◌,
}
use emucpu.Prelude.Int.{ℤ, pos, int_eq}
use emucpu.Prelude.Text.{Text, codes, text_eq, starts_with, contains, join, show_int}
use emucpu.Prelude.Dict.{Dict, lookup, insert}
use emucpu.Stdlib.OsPath.{join_path}
use emucpu.Stdlib.Hex.{hex_value}
use emucpu.ScriptsLib.Format
use emucpu.ScriptsLib.Format.{Item, FormatError, format_to_cmd, get_run_cmd}
use emucpu.ScriptsLib.RunOne
use emucpu.ScriptsLib.RunOne.{Host, Redirect, RunError, RunResult, run_one}
use emucpu.RunInstrGen.Reloc.{
  GenError, key_error, runtime_error, os_error, value_error, Places, reloc_commands,
}
use emucpu.RunInstrGen.Copies.{Copying, CopyRule, do_file_copies}

-- What `_main` takes from the metadata, the test run and the configuration, and from setup_imports.
pub record Job : Type 0 where
  pub testname : Text
  pub seed : ℤ
  pub verbose : Bool
  pub simulator : Text
  pub isa_ibex : Text
  pub signature_addr : Text
  pub pmp_num_regions : ℤ
  pub pmp_granularity : ℤ
  pub dir_test : Text
  pub dir_instruction_generator : Text
  pub riscv_dv : Text
  pub extension_dir : Text

-- The machine that it runs on: what commands do, the directory of `tempfile.TemporaryDirectory`, the
-- working directory, and `resolve` of a path.
pub record Setting : Type 0 where
  pub machine : Host
  pub td : Text
  pub cwd : Text
  pub resolve_path : Text → Text

-- `f'{n:x}'`, by fuel: a number has at most one digit more than its value.
abbrev hex_char : ℕ → ℕ
hex_char n = if ltb n 10 then b'0' + n else b'a' + (n - 10)

unfoldable pub hex_digits_onto : ℕ → ℕ → Text → Text
hex_digits_onto zero n out = out
hex_digits_onto (suc fuel) n out =
    let more = hex_digits_onto fuel (n / 16) (hex_char (n % 16) ∷ out) in
    if n / 16 == 0 then hex_char (n % 16) ∷ out else more

unfoldable pub show_hex : ℕ → Text
unfolding hex_digits_onto
show_hex n = hex_digits_onto (suc n) n []

-- `f'{(n - 4):x}'`
unfoldable pub four_below : ℕ → Text
unfolding show_hex
four_below n = if ltb n 4 then b'-' ∷ show_hex (4 - n) else show_hex (n - 4)

-- `sig`
unfoldable pub signature_of : Job → Result GenError Text
unfolding contains hex_value four_below
signature_of r =
    if contains (codes "riscv_csr_test") r.testname
    then elim (hex_value r.signature_addr) [
      | none ↦ raise (value_error r.signature_addr)
      | some n ↦ ok (four_below n)
    ]
    else ok r.signature_addr

-- `inst_overrides`
abbrev inst_overrides : List Text
inst_overrides =
    codes "riscv_asm_program_gen" ∷ codes "ibex_asm_program_gen" ∷ codes "uvm_test_top.asm_gen" ∷ []

unfoldable pub sim_opts_dict : Job → Text → Dict Text
unfolding join show_int
sim_opts_dict r sig =
    (codes "uvm_set_inst_override", join (codes ",") inst_overrides)
    ∷ (codes "require_signature_addr", codes "1")
    ∷ (codes "signature_addr", sig)
    ∷ (codes "pmp_num_regions", show_int r.pmp_num_regions)
    ∷ (codes "pmp_granularity", show_int r.pmp_granularity)
    ∷ (codes "tvec_alignment", codes "8")
    ∷ []

unfoldable pub orig_list : Setting → Text
unfolding join_path
orig_list w = join_path w.td (codes "cmds.list")

unfoldable pub placeholder : Setting → Text
unfolding join_path
placeholder w = join_path w.td (codes "@@PLACEHOLDER@@")

-- `cmd`, before it is formatted
unfoldable pub generator_cmd : Setting → Job → Text → List Item
unfolding get_run_cmd sim_opts_dict orig_list placeholder show_int join
generator_cmd w r sig =
    get_run_cmd r.riscv_dv r.extension_dir r.verbose
    ++ map Format.text (
        codes "--so"
        ∷ codes "--steps=gen"
        ∷ codes "--output"
        ∷ placeholder w
        ∷ codes "--simulator"
        ∷ r.simulator
        ∷ codes "--isa"
        ∷ r.isa_ibex
        ∷ codes "--test"
        ∷ r.testname
        ∷ codes "--start_seed"
        ∷ show_int r.seed
        ∷ codes "--iterations"
        ∷ codes "1"
        ∷ codes "--end_signature_addr"
        ∷ sig
        ∷ codes "--debug"
        ∷ orig_list w
        ∷ codes "--sim_opts"
        ∷ join (codes " ")
            (map (λ o. codes "+" ++ (o.0 ++ (codes "=" ++ o.1))) (sim_opts_dict r sig))
        ∷ [])

-- The files after some code, with what it returned or raised.
abbrev pub Run : Type 0 → Type 0
Run A = Dict Text × Result GenError A

infixl 5 ◌then_do◌
unfoldable pub ◌then_do◌ : {A B : Type 0} → Run A → (A → Dict Text → Run B) → Run B
(s, raise e) then_do next = (s, raise e)
(s, ok a) then_do next = next a s

abbrev pub of_run_error : RunError → GenError
of_run_error (RunOne.invalid_redirect n) = runtime_error n
of_run_error (RunOne.not_opened p) = os_error p
of_run_error RunOne.timeout_expired = runtime_error []

abbrev pub of_result : Result RunError ℤ → Result GenError ℤ
of_result (ok code) = ok code
of_result (raise e) = raise (of_run_error e)

abbrev pub or_runtime_error : Result FormatError (List Text) → Result GenError (List Text)
or_runtime_error (ok cmd) = ok cmd
or_runtime_error (raise e) = raise (runtime_error [])

unfoldable pub run_cmd : Setting → Job → List Text → Redirect → Dict Text → Run ℤ
unfolding run_one
run_cmd w r cmd redirect s =
    let done = run_one w.machine r.verbose cmd redirect false s in
    (done.files, of_result done.returned)

-- `gen_retcode`
unfoldable pub generate : Setting → Job → Dict Text → Run ℤ
unfolding signature_of generator_cmd format_to_cmd run_cmd join_path
generate w r s =
    elim (do
      sig ← signature_of r
      or_runtime_error (format_to_cmd w.resolve_path (generator_cmd w r sig))) [
        | raise e ↦ (s, raise e)
        | ok cmd ↦
            let log = join_path r.dir_instruction_generator (codes "riscvdv_cmds.log") in
            run_cmd w r cmd (RunOne.path log) s
      ]

unfoldable pub places_of : Setting → Job → Places
unfolding placeholder
places_of w r = record {
  simulator = r.simulator;
  placeholder_dir = placeholder w;
  build_dir = w.resolve_path r.dir_instruction_generator;
  scratch_dir = w.td;
  testname = r.testname;
  cwd = w.cwd;
}

-- The call of `reloc_commands`.
unfoldable pub commands : Setting → Job → Dict Text → Run (List (List Text))
unfolding reloc_commands places_of orig_list
commands w r s = elim (lookup (orig_list w) s) [
  | none ↦ (s, raise (os_error (orig_list w)))
  | some src ↦ (s, reloc_commands (places_of w r) src)
]

-- The commands in sequence, up to the first that fails, with `ret`.
unfoldable pub run_cmds : Setting → Job → Text → List (List Text) → Dict Text → Run ℤ
unfolding run_cmd
run_cmds w r log [] s = (s, ok (pos 0))
run_cmds w r log (cmd ∷ cmds) s =
    let (t, result) = run_cmd w r cmd (RunOne.stream log) s in
    let rest = run_cmds w r log cmds t in
    elim result [
      | raise e ↦ (t, raise e)
      | ok ret ↦ if int_eq ret (pos 0) then rest else (t, ok ret)
    ]

unfoldable pub run_log : Job → Text
unfolding join_path
run_log r = join_path r.dir_instruction_generator (codes "riscvdv_run.log")

-- The file that takes the output is opened, and the commands are run.
unfoldable pub run_logged : Setting → Job → List (List Text) → Dict Text → Run ℤ
unfolding run_cmds run_log
run_logged w r cmds s =
    if w.machine.writable (run_log r)
    then run_cmds w r (run_log r) cmds (insert (run_log r) [] s)
    else (s, raise (os_error (run_log r)))

-- The entry of `test_file_copies`, and `default_file_copies`.
abbrev pub csr_file_copies : List CopyRule
csr_file_copies =
    record {
      src_name = codes "riscv_csr_test_0.S";
      dst_name = codes "test.S";
      copy_on_fail = false;
    }
    ∷ []

abbrev pub default_file_copies : List CopyRule
default_file_copies =
    record { src_name = codes "gen.log"; dst_name = codes "gen.log"; copy_on_fail = true }
    ∷ record { src_name = codes "test_0.S"; dst_name = codes "test.S"; copy_on_fail = false }
    ∷ []

-- `file_copies`
unfoldable pub file_copies : Text → List CopyRule
unfolding text_eq
file_copies testname =
    if text_eq testname (codes "riscv_csr_test") then csr_file_copies else default_file_copies

-- `do_file_copies` at the end, and the 0 that is returned.
abbrev pub returns_0 : Copying → Run ℤ
returns_0 (s, none) = (s, ok (pos 0))
returns_0 (s, some e) = (s, raise e)

unfoldable pub copy_results : Setting → Job → ℤ → Dict Text → Run ℤ
unfolding do_file_copies file_copies
copy_results w r ret s = returns_0 (
    do_file_copies w.machine.writable w.td r.dir_test (file_copies r.testname)
      (not (int_eq ret (pos 0))) s)

-- What follows a generation with this exit code.
unfoldable pub after_generation : Setting → Job → ℤ → Dict Text → Run ℤ
unfolding commands run_logged copy_results ◌then_do◌
after_generation w r code s =
    if int_eq code (pos 0)
    then (commands w r s then_do (λ cmds t. run_logged w r cmds t))
      then_do (λ ret t. copy_results w r ret t)
    else (s, ok code)

-- The path lies in the temporary directory.
unfoldable pub is_scratch : Setting → Text → Bool
unfolding starts_with join_path
is_scratch w path = starts_with path (join_path w.td [])

-- The end of the `with` block, which an exception passes through too.
unfoldable pub leave_scratch : {A : Type 0} → Setting → Run A → Run A
unfolding is_scratch
leave_scratch w (s, result) = (select (λ file. not (is_scratch w file.0)) s, result)

unfoldable pub main : Setting → Job → Dict Text → Run ℤ
unfolding generate after_generation leave_scratch ◌then_do◌
main w r s = leave_scratch w (generate w r s then_do (λ code t. after_generation w r code t))
