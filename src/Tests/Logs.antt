-- ===== src/Tests/Logs.antt =====
-- Checking logs and collecting results.
use emucpu.Prelude.{
  Bool, true, false, not, ◌&&◌, if◌then◌else◌, List, [], ◌∷◌, map, Option, none, some, Result, ok,
  raise, all, any, is_ok, ◌≡◌, ◌↔◌, refl,
}
use emucpu.Prelude.Dict.{lookup}
use emucpu.Prelude.Text.{Text, codes, contains}
use emucpu.LogCheck.Modes.{FailureMode, TestRunResult}
use emucpu.LogCheck.UvmLog.{
  is_pass, is_fail, extract, no_error_line, failure_mode_of, check_ibex_uvm_log,
}
use emucpu.LogCheck.UvmLog.Spec.{upto_result, last_error, uvm_log_verdict}
use emucpu.LogCheck.Verdict.{is_timeout, compare_test_run}
use emucpu.LogCheck.Verdict.Passing.{rtl_log_passes, compare-passed}
use emucpu.LogCheck.Collect.{
  is_passed, counts_of, create_test_summary_dict, Report, collect_results,
}
use emucpu.LogCheck.Collect.Counts.{
  runs, passing_of, failing_of, summary-runs, collect_results-partition,
}

abbrev failing_log : List Text
failing_log =
    codes "UVM_INFO start"
    ∷ codes "UVM_ERROR mismatch"
    ∷ codes "RISC-V UVM TEST FAILED"
    ∷ codes "UVM_ERROR late"
    ∷ []

abbrev passing_log : List Text
passing_log = codes "UVM_INFO start" ∷ codes "RISC-V UVM TEST PASSED" ∷ []

uvm_log_verdict_example :
    check_ibex_uvm_log failing_log ≡ elim (last_error none 1 (upto_result failing_log)) [
      | some (n, line) ↦ ok (false, extract n 1 failing_log, failure_mode_of line)
      | none ↦
          if any is_fail failing_log
          then raise no_error_line
          else ok (any is_pass failing_log, [], FailureMode.none)
    ]
uvm_log_verdict_example = uvm_log_verdict failing_log

abbrev basic : Option Bool → TestRunResult
basic passed = record {
  passed = passed;
  failure_mode = none;
  failure_message = none;
  timeout_s = some 1800;
  testname = codes "riscv_arithmetic_basic_test";
  seed = 7;
  rtl_log_name = codes "rtl_sim.log";
}

abbrev trace_converted : Result Text (Unit {0})
trace_converted = ok tt

compare-passed_example :
    (some true ≡ some true)
    ↔ (not (is_timeout none) && is_ok trace_converted && rtl_log_passes (ok passing_log) ≡ true)
unfolding compare_test_run contains
compare-passed_example =
    compare-passed (basic none) trace_converted (ok passing_log) {trr' = basic (some true)}
      (λ e. cc) refl

abbrev tests : List TestRunResult
tests = basic (some true) ∷ basic none ∷ basic (some true) ∷ []

summary-runs_example :
    counts_of (lookup (codes "riscv_arithmetic_basic_test") (create_test_summary_dict tests))
    ≡ record {
      passing = runs true (codes "riscv_arithmetic_basic_test") tests;
      failing = runs false (codes "riscv_arithmetic_basic_test") tests;
    }
summary-runs_example = summary-runs tests (codes "riscv_arithmetic_basic_test")

collect_results-partition_example :
    (rep : Report) × (collect_results (map ok tests) ≡ ok rep)
    × (rep.collected.passing_tests ≡ passing_of tests)
    × (rep.collected.failing_tests ≡ failing_of tests)
    × ((name : Text)
        → counts_of (lookup name rep.test_summary_dict)
          ≡ record { passing = runs true name tests; failing = runs false name tests })
    × ((rep.exit_code ≡ 0) ↔ (all is_passed tests ≡ true))
collect_results-partition_example =
    collect_results-partition (basic (some true)) (basic none ∷ basic (some true) ∷ [])
