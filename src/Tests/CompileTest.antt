-- ===== src/Tests/CompileTest.antt =====
-- A build whose commands fail.
use emucpu.Prelude.{true, false, List, [], ◌∷◌, some, ok, ◌≡◌, refl}
use emucpu.Prelude.Int.{ℤ, pos}
use emucpu.Prelude.Text.{Text, codes, text_eq}
use emucpu.Prelude.Dict.{Dict}
use emucpu.IbexConfig.Value.{text}
use emucpu.Metadata.{TestType, directed}
use emucpu.RunInstrGen.Main.{Setting}
use emucpu.ScriptsLib.RunOne.{Redirect, Ran, exited}
use emucpu.CompileTest.{Build, get_directed_compile_cmds, compile_test}
use emucpu.CompileTest.Failed.{codes_of, compile_test-exit_code}

abbrev fail_with : ℤ → List Text → Redirect → Dict Text → Dict Text × Ran
fail_with c cmd out s = (s, exited c)

abbrev setting : ℤ → Setting
setting c = record {
  machine = record { writable = λ p. true; run = fail_with c };
  td = codes "/t";
  cwd = codes "/w";
  resolve_path = λ p. p;
}

abbrev build : TestType → Build
build testtype = record {
  testtype = testtype;
  testname = codes "t";
  seed = pos 3;
  verbose = false;
  isa_ibex = codes "rv32imc";
  dir_test = codes "/o/t.3";
  assembly = codes "/o/t.3/test.S";
  is_discrete_debug_module = false;
  directed_data = (codes "gcc_opts", text (codes "-static")) ∷ [];
  customtarget = codes "/e";
  riscv_dv = codes "/r";
  extension_dir = codes "/e";
  environ = λ v. some (codes "tool");
}

abbrev directed_cmds : List (List Text)
directed_cmds =
    (codes "tool"
      ∷ codes "-static"
      ∷ codes "-INone"
      ∷ codes "-TNone"
      ∷ codes "-o"
      ∷ codes "/o/t.3/test.o"
      ∷ codes "None"
      ∷ [])
    ∷ (codes "tool"
        ∷ codes "-O"
        ∷ codes "binary"
        ∷ codes "/o/t.3/test.o"
        ∷ codes "/o/t.3/test.bin"
        ∷ [])
    ∷ []

compile_test-exit_code_example :
    (compile_test (setting (pos 2)) (build directed) []).1 ≡ ok (some (pos 2))
unfolding get_directed_compile_cmds codes_of text_eq
compile_test-exit_code_example =
    compile_test-exit_code (setting (pos 2)) (build directed) [] [] {cmds = directed_cmds} refl refl
