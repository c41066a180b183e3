-- ===== src/LogCheck/Verdict.antt =====
-- `compare_test_run` of check_logs.py. Converting the Ibex trace to CSV and opening the log are
-- parameters: each succeeds, or fails with the text of an exception that is caught here.
pub mod Passing
use emucpu.Prelude.{
  ℕ, Bool, true, false, if◌then◌else◌, List, [], ◌∷◌, ◌++◌, Option, none, some, Result, ok, raise,
}
use emucpu.Prelude.Text.{Text, codes, join, show_nat}
use emucpu.LogCheck.Modes.{FailureMode, timeout, file_error, log_error, TestRunResult}
use emucpu.LogCheck.UvmLog.{LogError, check_ibex_uvm_log}

-- `f"{trr.timeout_s}"`
unfoldable pub show_timeout : Option ℕ → Text
unfolding show_nat
show_timeout none = codes "None"
show_timeout (some n) = show_nat n

unfoldable pub is_timeout : Option FailureMode → Bool
is_timeout (some timeout) = true
is_timeout _ = false

unfoldable pub log_message : TestRunResult → FailureMode → Text
unfolding show_timeout
log_message trr timeout =
    codes "[FAILURE] Simulation ended gracefully due to timeout ["
    ++ show_timeout trr.timeout_s
    ++ codes "s].\n"
log_message trr mode = codes "\n[FAILED]: error seen in '" ++ trr.rtl_log_name ++ codes "'\n"

unfoldable pub extract_message : List Text → Text
extract_message [] = []
extract_message (line ∷ lines) =
    codes "---------------*LOG-EXTRACT*----------------\n"
    ++ join (codes "\n") (line ∷ lines)
    ++ codes "\n"
    ++ codes "--------------------------------------------\n"

-- `trr` after a file could not be read.
abbrev pub file_failed : TestRunResult → Text → Text → TestRunResult
file_failed trr what e = record trr {
  passed = some false;
  failure_mode = some file_error;
  failure_message = some (what ++ e ++ codes "\n");
}

-- `trr` after the log check, on its three results. On a failure `passed` is left as it was.
unfoldable pub after_log : TestRunResult → Bool × List Text × FailureMode → TestRunResult
unfolding log_message extract_message
after_log trr (uvm_pass, uvm_log_lines, uvm_failure_mode) =
    if uvm_pass then record trr { passed = some true } else record trr {
      failure_mode = some uvm_failure_mode;
      failure_message = some (log_message trr uvm_failure_mode ++ extract_message uvm_log_lines);
    }

unfoldable pub check_log : TestRunResult → Result Text (List Text) → Result LogError TestRunResult
unfolding check_ibex_uvm_log after_log
check_log trr (raise e) = ok (file_failed trr (codes "[FAILED] Could not open simulation log: ") e)
check_log trr (ok lines) = elim (check_ibex_uvm_log lines) [
  | raise e ↦ raise e
  | ok uvm ↦ ok (after_log trr uvm)
]

unfoldable pub check_trace :
    TestRunResult → Result Text (Unit {0}) → Result Text (List Text) → Result LogError TestRunResult
unfolding check_log
check_trace trr (raise e) rtl_log =
    ok (file_failed trr (codes "[FAILED]: Processing the ibex trace failed: ") e)
check_trace trr (ok _) rtl_log = check_log trr rtl_log

-- `compare_test_run(trr)`, given the outcome of `process_ibex_sim_log` and the UVM log.
unfoldable pub compare_test_run :
    TestRunResult → Result Text (Unit {0}) → Result Text (List Text) → Result LogError TestRunResult
unfolding is_timeout check_trace
compare_test_run trr trace rtl_log =
    if is_timeout trr.failure_mode
    then ok (record trr { passed = some false })
    else check_trace trr trace rtl_log
