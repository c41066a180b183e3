-- ===== src/LogCheck/Verdict/Passing.antt =====
-- When `compare_test_run` marks a test as passed.
use emucpu.Prelude.{
  ℕ, Bool, true, false, not, ◌&&◌, List, none, some, Result, ok, raise, any, is_ok, arith, ◌≡◌, ◌≢◌,
  ◌↔◌, refl,
}
use emucpu.Prelude.Text.{Text}
use emucpu.LogCheck.Modes.{TestRunResult}
use emucpu.LogCheck.UvmLog.Spec.{upto_result, last_error, is_some, uvm_log_verdict}
use emucpu.LogCheck.UvmLog.{is_pass, is_fail, extract, failure_mode_of}
use emucpu.LogCheck.Verdict.{is_timeout, after_log, compare_test_run}

-- A log that shows a pass, no failure, and no error up to the first announced result.
abbrev pub log_passes : List Text → Bool
log_passes lines =
    not (is_some (last_error none 1 (upto_result lines)))
    && not (any is_fail lines)
    && any is_pass lines

abbrev pub rtl_log_passes : Result Text (List Text) → Bool
rtl_log_passes (ok lines) = log_passes lines
rtl_log_passes (raise e) = false

-- A test that was not marked as passed before is marked so exactly if it did not time out in the
-- simulation stage, its trace was converted and its log passes.
pub compare-passed :
    (trr : TestRunResult) (trace : Result Text (Unit {0})) (rtl_log : Result Text (List Text))
    {trr' : TestRunResult}
    → trr.passed ≢ some true
    → compare_test_run trr trace rtl_log ≡ ok trr'
    → (trr'.passed ≡ some true)
      ↔ (not (is_timeout trr.failure_mode) && is_ok trace && rtl_log_passes rtl_log ≡ true)
unfolding compare_test_run
compare-passed trr (ok t) (ok lines) n h = ground (arith, uvm_log_verdict lines)
compare-passed trr _ _ n h = ground arith

-- If the log shows an error, the result keeps whatever `passed` was before, so a result that was
-- marked as passed in an earlier run stays marked, while it gets the failure mode of the error.
pub compare_stale :
    (trr : TestRunResult) (lines : List Text) {n : ℕ} {line : Text}
    → is_timeout trr.failure_mode ≡ false
    → last_error none 1 (upto_result lines) ≡ some (n, line)
    → (trr' : TestRunResult) × (compare_test_run trr (ok tt) (ok lines) ≡ ok trr')
      × (trr'.passed ≡ trr.passed)
      × (trr'.failure_mode ≡ some (failure_mode_of line))
unfolding compare_test_run
compare_stale trr lines {n} {line} t e = (
  after_log trr (false, extract n 1 lines, failure_mode_of line),
  ground (arith, uvm_log_verdict lines),
  refl,
  refl,
)
