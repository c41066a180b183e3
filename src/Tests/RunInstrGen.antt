-- ===== src/Tests/RunInstrGen.antt =====
-- A generator that leaves one command, the command's file, and a failing command.
use emucpu.Prelude.{true, false, List, [], ◌∷◌, ◌++◌, some, ok, ◌≡◌, refl, All, if◌then◌else◌}
use emucpu.Prelude.Int.{pos}
use emucpu.Prelude.Text.{Text, codes, text_eq}
use emucpu.Prelude.Dict.{Dict, lookup, insert}
use emucpu.Stdlib.Shlex.{shlex_split}
use emucpu.ScriptsLib.RunOne.{Redirect, path, Ran, exited, print_line}
use emucpu.ScriptsLib.RunOne.Printed.{redirect_words, shlex_split-print_line}
use emucpu.RunInstrGen.Reloc.{Places, reloc_word, match_plusarg}
use emucpu.RunInstrGen.Reloc.Plusarg.{plusarg, reloc_word-plusarg}
use emucpu.RunInstrGen.Copies.{do_file_copies}
use emucpu.RunInstrGen.Copies.Effect.{IsDone, do_file_copies-IsDone}
use emucpu.RunInstrGen.Main.{
  Job, Setting, generate, commands, run_logged, default_file_copies, is_scratch, main,
}
use emucpu.RunInstrGen.Main.Copied.{assembly_name, main-assembly}

shlex_split-print_line_example :
    shlex_split (print_line (codes "it's" ∷ codes "a b" ∷ []) (path (codes "out/l og")))
    ≡ ok (codes "+" ∷ (codes "it's" ∷ codes "a b" ∷ []) ++ redirect_words (path (codes "out/l og")))
shlex_split-print_line_example =
    shlex_split-print_line (codes "it's") (codes "a b" ∷ []) (path (codes "out/l og"))

print_line_runs :
    print_line (codes "it's" ∷ codes "a b" ∷ []) (path (codes "out/l og"))
    ≡ codes "+ 'it'\"'\"'s' 'a b' >>'l og' 2>&1"
unfolding print_line
print_line_runs = refl

abbrev places : Places
places = record {
  simulator = codes "xlm";
  placeholder_dir = codes "/t/@@P";
  build_dir = codes "/b";
  scratch_dir = codes "/t";
  testname = codes "t1";
  cwd = codes "/w";
}

reloc_word-plusarg_example :
    reloc_word places (plusarg b'o' (codes "ut") ++ codes "/t/@@P/asm_test/t1")
    ≡ ok (plusarg b'o' (codes "ut") ++ codes "/t/test")
unfolding reloc_word match_plusarg lookup
reloc_word-plusarg_example =
    reloc_word-plusarg places b'o' (codes "ut") (codes "/t/@@P/asm_test/t1") (codes "/t/test") refl
      refl refl refl refl

abbrev left_by_run : Dict Text
left_by_run = (codes "/t/gen.log", codes "log") ∷ (codes "/t/test_0.S", codes "nop") ∷ []

do_file_copies-IsDone_example :
    All
      (IsDone
        (codes "/t")
        (codes "/o")
        true
        left_by_run
        (do_file_copies
          (λ p. true)
          (codes "/t")
          (codes "/o")
          default_file_copies
          true
          left_by_run).0)
      default_file_copies
unfolding do_file_copies text_eq lookup
do_file_copies-IsDone_example =
    do_file_copies-IsDone (codes "/t") (codes "/o") (λ p. true) default_file_copies true left_by_run
      (((refl, refl), tt), (tt, tt)) refl

-- The generator leaves its list, any other command the test.
abbrev run_any : List Text → Redirect → Dict Text → Dict Text × Ran
run_any [] out s = (s, exited (pos 1))
run_any (word ∷ cmd) out s =
    if text_eq word (codes "python3")
    then (
      insert (codes "/t/cmds.list") (codes "\n /b/gen +o=/t/@@PLACEHOLDER@@/asm_test/t1\n") s,
      exited (pos 0),
    )
    else (
      insert (codes "/t/test_0.S") (codes "nop") (insert (codes "/t/gen.log") [] s),
      exited (pos 0),
    )

abbrev setting : Setting
setting = record {
  machine = record { writable = λ p. true; run = run_any };
  td = codes "/t";
  cwd = codes "/w";
  resolve_path = λ p. p;
}

abbrev job : Job
job = record {
  testname = codes "t1";
  seed = pos 7;
  verbose = false;
  simulator = codes "xlm";
  isa_ibex = codes "rv32imc";
  signature_addr = codes "8ffffffc";
  pmp_num_regions = pos 4;
  pmp_granularity = pos 0;
  dir_test = codes "/o/t1.7";
  dir_instruction_generator = codes "/o/gen";
  riscv_dv = codes "/r";
  extension_dir = codes "/e";
}

abbrev after_generator : Dict Text
after_generator = (generate setting job []).0

abbrev cmds : List (List Text)
cmds = (codes "/b/gen" ∷ codes "+o=/t/test" ∷ []) ∷ []

abbrev after_cmds : Dict Text
after_cmds = (run_logged setting job cmds after_generator).0

main-assembly_example :
    (pos 0 ≡ pos 0)
    × (content : Text) × (lookup (codes "/t/test_0.S") after_cmds ≡ some content)
    × (lookup (codes "/o/t1.7/test.S") (main setting job []).0 ≡ some content)
unfolding main generate commands run_logged is_scratch assembly_name lookup insert
main-assembly_example =
    main-assembly setting job [] after_generator after_cmds (main setting job []).0 cmds refl refl
      refl refl refl refl
