-- ===== src/CompileTest/Failed.antt =====
-- What the build of a test returns.
use emucpu.Prelude.{
  Option, none, some, Bool, true, false, if◌then◌else◌, List, [], ◌∷◌, ok, ◌≡◌, refl, ◌∙◌,
  Bool-cases, inl, inr,
}
use emucpu.Prelude.Int.{ℤ, pos, int_eq}
use emucpu.Prelude.Text.{Text}
use emucpu.Prelude.Dict.{Dict, insert}
use emucpu.ScriptsLib.RunOne.{
  Host, binary_stream, Ran, exited, os_failed, timed_out, return_code, run_one,
}
use emucpu.RunInstrGen.Main.{Setting, ◌then_do◌}
use emucpu.CompileTest.{Build, cmds_for, compile_log, run_compile, run_all_compile, compile_test}

-- The exit code of a command, as `run_one` returns it.
abbrev pub code_of : Ran → ℤ
code_of (exited c) = c
code_of _ = pos 1

-- The exit codes of the commands if all of them are run in their order.
unfoldable pub codes_of : Host → Text → List (List Text) → Dict Text → List ℤ
codes_of w log [] s = []
codes_of w log (cmd ∷ cmds) s =
    let (files, ran) = w.run cmd (binary_stream log) s in code_of ran ∷ codes_of w log cmds files

-- The first that is not 0.
abbrev pub first_failure : List ℤ → Option ℤ
first_failure [] = none
first_failure (c ∷ more) = if int_eq c (pos 0) then first_failure more else some c

run_one-code :
    (w : Host) (verbose : Bool) (cmd : List Text) (log : Text) (s : Dict Text)
    → let done = run_one w verbose cmd (binary_stream log) false s in
      let ran = w.run cmd (binary_stream log) s in
      (done.files ≡ ran.0) × (done.returned ≡ return_code false ran.1)
unfolding run_one
run_one-code w true cmd log s = (refl, refl)
run_one-code w false cmd log s = (refl, refl)

return_code-code_of : (ran : Ran) → return_code false ran ≡ ok (code_of ran)
unfolding return_code
return_code-code_of (exited c) = refl
return_code-code_of os_failed = refl
return_code-code_of timed_out = refl

run_compile-code :
    (w : Setting) (b : Build) (cmds : List (List Text)) (s : Dict Text)
    → (run_compile w b cmds s).1 ≡ ok (first_failure (codes_of w.machine (compile_log b) cmds s))
unfolding codes_of run_compile
run_compile-code w b [] s = refl
run_compile-code w b (cmd ∷ cmds) s =
    let log = compile_log b in
    let ran = w.machine.run cmd (binary_stream log) s in
    let (files, returned) = run_one-code w.machine b.verbose cmd log s in
    let result = returned ∙ return_code-code_of ran.1 in
    elim (Bool-cases (int_eq (code_of ran.1) (pos 0))) [
      | inl succeeded ↦ rw (run_compile, result, files, succeeded) (run_compile-code w b cmds ran.0)
      | inr failed ↦ rw (run_compile, result, failed) refl
    ]

-- If the commands that build a test can be made, and the log can be opened, then what `_main` returns
-- is the exit code of the first command that fails when they are run one after the other, and None
-- if none of them does. A command that cannot be started counts with the exit code 1.
pub compile_test-exit_code :
    (w : Setting) (b : Build) (s t : Dict Text) {cmds : List (List Text)}
    → cmds_for b.testtype w b s ≡ (t, ok cmds)
    → w.machine.writable (compile_log b) ≡ true
    → (compile_test w b s).1
      ≡ ok (first_failure (codes_of w.machine (compile_log b) cmds (insert (compile_log b) [] t)))
unfolding compile_test ◌then_do◌ run_all_compile
compile_test-exit_code w b s t {cmds} made may =
    rw (compile_test, made, run_all_compile, may)
      (run_compile-code w b cmds (insert (compile_log b) [] t))
