-- ===== src/RunRtl/Timeout.antt =====
-- A simulation ends with 0 whatever its commands do, and is marked if one of them timed out.
use emucpu.Prelude.{
  Bool, true, false, ◌||◌, any, if◌then◌else◌, List, [], ◌∷◌, some, ok, ◌≡◌, refl, ◌∙◌,
}
use emucpu.Prelude.Text.{Text}
use emucpu.Prelude.Dict.{Dict, insert}
use emucpu.LogCheck.Modes.{timeout}
use emucpu.ScriptsLib.RunOne.{
  Host, binary_stream, Ran, exited, os_failed, timed_out, return_code, run_one,
}
use emucpu.RunRtl.{
  Bench, RtlRun, sim_cmds, announce, unless_timed_out, run_sims, rtl_stdout, simulate, run_rtl,
}

abbrev pub is_timed_out : Ran → Bool
is_timed_out timed_out = true
is_timed_out _ = false

-- What each of the commands comes to if all of them are run in their order.
unfoldable pub ran_all : Host → Text → List (List Text) → Dict Text → List Ran
ran_all w log [] s = []
ran_all w log (cmd ∷ cmds) s =
    let (files, ran) = w.run cmd (binary_stream log) (announce log cmd s) in
    ran ∷ ran_all w log cmds files

-- A verbose run prints nothing to a file that takes bytes.
run_one-binary :
    (w : Host) (verbose : Bool) (cmd : List Text) (log : Text) (s : Dict Text)
    → let done = run_one w verbose cmd (binary_stream log) true s in
      let ran = w.run cmd (binary_stream log) s in
      (done.files ≡ ran.0) × (done.returned ≡ return_code true ran.1)
unfolding run_one
run_one-binary w true cmd log s = (refl, refl)
run_one-binary w false cmd log s = (refl, refl)

run_sims-cons :
    (w : Host) (verbose : Bool) (log : Text) (cmd : List Text) (cmds : List (List Text))
    (s : Dict Text)
    → let done = run_one w verbose cmd (binary_stream log) true (announce log cmd s) in
      (run_sims w verbose log (cmd ∷ cmds) s).1
      ≡ (unless_timed_out (run_sims w verbose log cmds done.files) done.files done.returned).1
unfolding run_sims
run_sims-cons w verbose log cmd cmds s = refl

unless_timed_out-return_code :
    (rest : Dict Text × Bool) (files : Dict Text) (ran : Ran) (later : Bool)
    → rest.1 ≡ later
    → (unless_timed_out rest files (return_code true ran)).1 ≡ (is_timed_out ran || later)
unfolding return_code
unless_timed_out-return_code rest files (exited code) later e = e
unless_timed_out-return_code rest files os_failed later e = e
unless_timed_out-return_code rest files timed_out later e = refl

run_sims-timed :
    (w : Host) (verbose : Bool) (log : Text) (cmds : List (List Text)) (s : Dict Text)
    → (run_sims w verbose log cmds s).1 ≡ any is_timed_out (ran_all w log cmds s)
unfolding ran_all
run_sims-timed w verbose log [] s = unfold run_sims in refl
run_sims-timed w verbose log (cmd ∷ cmds) s =
    let (files, returned) = run_one-binary w verbose cmd log (announce log cmd s) in
    let ran = w.run cmd (binary_stream log) (announce log cmd s) in
    run_sims-cons w verbose log cmd cmds s
    ∙ rw (files, returned)
        (unless_timed_out-return_code (run_sims w verbose log cmds ran.0) ran.0 ran.1
          (any is_timed_out (ran_all w log cmds ran.0)) (run_sims-timed w verbose log cmds ran.0))

simulate-timeout :
    (w : Host) (md : Bench) (r : RtlRun) (s : Dict Text) (cmds : List (List Text)) {timed : Bool}
    → w.writable (rtl_stdout r) ≡ true
    → (run_sims w md.verbose (rtl_stdout r) cmds (insert (rtl_stdout r) [] s)).1 ≡ timed
    → ((simulate w md r cmds s).returned ≡ ok 0)
      × ((simulate w md r cmds s).failure_mode ≡ (if timed then some timeout else r.failure_mode))
unfolding simulate
simulate-timeout w md r s cmds may e = (rw (simulate, may) refl, rw (simulate, may, e) refl)

-- If the commands of a simulation can be made, and its log can be opened, then the run returns 0,
-- whatever the commands come to. If one of the commands, run one after the other, times out, its
-- failure mode is TIMEOUT, and otherwise it is what it was before the run.
pub run_rtl-timeout :
    (w : Host) (md : Bench) (r : RtlRun) (s : Dict Text) {cmds : List (List Text)}
    → sim_cmds md r ≡ ok cmds
    → w.writable (rtl_stdout r) ≡ true
    → ((run_rtl w md r s).returned ≡ ok 0)
      × ((run_rtl w md r s).failure_mode ≡ (
          if any is_timed_out (ran_all w (rtl_stdout r) cmds (insert (rtl_stdout r) [] s))
          then some timeout
          else r.failure_mode))
unfolding run_rtl
run_rtl-timeout w md r s {cmds} made may =
    rw (run_rtl, made)
      (simulate-timeout w md r s cmds may
        (run_sims-timed w md.verbose (rtl_stdout r) cmds (insert (rtl_stdout r) [] s)))
