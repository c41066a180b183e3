-- ===== src/LogCheck/Modes.antt =====
-- `Failure_Modes` and the fields of `TestRunResult` that the log check and the summary use.
use emucpu.Prelude.{ℕ, Bool}
use emucpu.Prelude.Text.{Text}
use mathlib.Core.Option

pub data FailureMode : Type 0 where
  none timeout file_error log_error : FailureMode

pub record TestRunResult : Type 0 where
  pub passed : Option.Option Bool
  pub failure_mode : Option.Option FailureMode
  pub failure_message : Option.Option Text
  pub timeout_s : Option.Option ℕ
  pub testname : Text
  pub seed : ℕ
  -- `rtl_log.name`
  pub rtl_log_name : Text
