-- ===== src/LogCheck/UvmLog.antt =====
-- `check_ibex_uvm_log` on the lines of the log.
pub mod Spec
pub mod Extract
use emucpu.Prelude.{
  ℕ, ◌+◌, ◌-◌, Bool, true, false, not, ◌&&◌, ◌||◌, ◌==◌, leb, ltb, if◌then◌else◌, List, [], ◌∷◌,
  ◌++◌, Option, none, some, Result, ok, raise,
}
use emucpu.Prelude.Text.{Text, codes, contains, strip, show_nat}
use emucpu.LogCheck.Modes.{FailureMode, timeout, log_error}

unfoldable pub is_error : Text → Bool
unfolding contains
is_error line =
    contains (codes "UVM_ERROR") line
    || contains (codes "UVM_FATAL") line
    || contains (codes "Error") line

unfoldable pub is_pass : Text → Bool
unfolding contains
is_pass line = contains (codes "RISC-V UVM TEST PASSED") line

unfoldable pub is_fail : Text → Bool
unfolding contains
is_fail line = contains (codes "RISC-V UVM TEST FAILED") line

-- The variables of the loop; `error` is `error_linenum` with `error_line`.
pub record Scan : Type 0 where
  pub passed : Bool
  pub failed : Bool
  pub error : Option (ℕ × Text)
  pub test_result_seen : Bool

abbrev pub note_error : Scan → ℕ → Text → Scan
note_error s linenum line =
    if is_error line && not s.test_result_seen
    then record s { error = some (linenum, line); failed = true }
    else s

abbrev pub note_pass : Scan → Text → Scan
note_pass s line = if is_pass line then record s { test_result_seen = true; passed = true } else s

-- The loop, from line number `linenum`; a FAILED line breaks out of it.
unfoldable pub scan : ℕ → List Text → Scan → Scan
unfolding is_error is_pass is_fail
scan linenum [] s = s
scan linenum (line ∷ lines) s =
    let s' = note_pass (note_error s linenum line) line in
    let rest = scan (linenum + 1) lines s' in
    if is_fail line then record s' { test_result_seen = true; failed = true } else rest

abbrev pub start : Scan
start = record { passed = false; failed = false; error = none; test_result_seen = false }

-- One line of the extract.
unfoldable pub extract_line : ℕ → ℕ → Text → Text
unfolding strip show_nat
extract_line error_linenum linenum line =
    (if linenum == error_linenum then codes "[E] " else codes "    ")
    ++ show_nat linenum
    ++ codes ": "
    ++ strip line

-- The second pass over the log: `linenum in range(error_linenum-5, error_linenum+5)`.
unfoldable pub extract : ℕ → ℕ → List Text → List Text
unfolding extract_line
extract error_linenum linenum [] = []
extract error_linenum linenum (line ∷ lines) =
    if leb error_linenum (linenum + 5) && ltb linenum (error_linenum + 5)
    then extract_line error_linenum linenum line ∷ extract error_linenum (linenum + 1) lines
    else extract error_linenum (linenum + 1) lines

-- `in error_line` where no error line was seen: Python's `TypeError` on None.
pub data LogError : Type 0 where
  no_error_line : LogError

unfoldable pub failure_mode_of : Text → FailureMode
unfolding contains
failure_mode_of error_line =
    if contains (codes "Test failed due to wall-clock timeout.") error_line
    then timeout
    else log_error

-- What follows the loop.
unfoldable pub conclude : List Text → Scan → Result LogError (Bool × List Text × FailureMode)
unfolding extract failure_mode_of
conclude lines s =
    if s.failed
    then elim s.error [
      | some (linenum, line) ↦ ok (false, extract linenum 1 lines, failure_mode_of line)
      | none ↦ raise no_error_line
    ]
    else ok (s.passed, [], FailureMode.none)

unfoldable pub check_ibex_uvm_log : List Text → Result LogError (Bool × List Text × FailureMode)
unfolding scan conclude
check_ibex_uvm_log lines = conclude lines (scan 1 lines start)
