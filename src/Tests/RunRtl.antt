-- ===== src/Tests/RunRtl.antt =====
-- A simulation of two commands, of which the second times out.
use emucpu.Prelude.{true, false, List, [], ◌∷◌, none, some, ok, map_ok, ◌≡◌, refl}
use emucpu.Prelude.Int.{pos}
use emucpu.Prelude.Text.{Text, codes, text_eq, strip}
use emucpu.Prelude.Dict.{Dict, lookup}
use emucpu.IbexConfig.Value.{Value, text, sequence, mapping, nil, cons, entry, end}
use emucpu.LogCheck.Modes.{timeout}
use emucpu.Metadata.{directed}
use emucpu.ScriptsLib.RunOne.{Host, Redirect, Ran, exited, timed_out}
use emucpu.RunRtl.{Bench, RtlRun, sim_cmds, run_rtl}
use emucpu.RunRtl.Timeout.{ran_all, run_rtl-timeout}

abbrev run_word : List Text → Redirect → Dict Text → Dict Text × Ran
run_word (word ∷ more ∷ cmd) out s = (s, timed_out)
run_word _ out s = (s, exited (pos 1))

abbrev host : Host
host = record { writable = λ p. true; run = run_word }

abbrev xlm : Dict Value
xlm =
    (codes "tool", text (codes "xlm"))
    ∷ (
      codes "sim",
      mapping (
          entry (codes "cmd")
            (sequence
              (cons (text (codes "clean")) (cons (text (codes "sim <seed> <sim_opts>")) nil)))
            end),
    )
    ∷ []

abbrev bench : Bench
bench = record {
  testlist = [];
  simulator_yaml = xlm ∷ [];
  simulator = codes "xlm";
  iss = codes "spike";
  cov = false;
  waves = false;
  verbose = true;
  run_rtl_timeout_s = 1800;
  signature_addr = codes "8";
  sim_opts = [];
  ibex_root = codes "/i";
  dir_tb = codes "/o/tb";
  dir_shared_cov = codes "/o/cov";
  ibex_dv_root = codes "/i/dv";
  environ = λ v. none;
}

abbrev rtl_run : RtlRun
rtl_run = record {
  testtype = directed;
  testname = codes "t";
  seed = pos 3;
  dir_test = codes "/o/t.3";
  binary = codes "/o/t.3/test.bin";
  directed_data = some ((codes "rtl_test", text (codes "core")) ∷ []);
  is_discrete_debug_module = false;
  vmem_main = [];
  vmem_dm = [];
  binary_main = [];
  binary_dm = [];
  failure_mode = none;
  failure_message = none;
}

abbrev two_cmds : List (List Text)
two_cmds =
    (codes "clean" ∷ [])
    ∷ (codes "sim" ∷ codes "3" ∷ codes "+signature_addr=8" ∷ codes "+test_timeout_s=1800" ∷ [])
    ∷ []

run_rtl-timeout_example :
    ((run_rtl host bench rtl_run []).returned ≡ ok 0)
    × ((run_rtl host bench rtl_run []).failure_mode ≡ some timeout)
unfolding sim_cmds ran_all lookup text_eq strip map_ok
run_rtl-timeout_example = run_rtl-timeout host bench rtl_run [] {cmds = two_cmds} refl refl
