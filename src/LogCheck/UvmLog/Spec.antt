-- ===== src/LogCheck/UvmLog/Spec.antt =====
-- The verdict on a UVM log, said without a loop.
use emucpu.Prelude.{
  ℕ, ◌+◌, Bool, true, false, ◌||◌, if◌then◌else◌, List, [], ◌∷◌, Option, none, some, ok, raise, any,
  arith, ◌≡◌,
}
use emucpu.Prelude.Text.{Text}
use emucpu.LogCheck.Modes.{FailureMode}
use emucpu.LogCheck.UvmLog.{
  is_error, is_pass, is_fail, Scan, scan, start, extract, no_error_line, failure_mode_of,
  check_ibex_uvm_log,
}

-- The lines up to the first that announces a result, that line included.
abbrev pub upto_result : List Text → List Text
upto_result [] = []
upto_result (line ∷ lines) =
    if is_pass line || is_fail line then line ∷ [] else line ∷ upto_result lines

-- The last error line with its number, counting from `n`.
abbrev pub last_error : Option (ℕ × Text) → ℕ → List Text → Option (ℕ × Text)
last_error found n [] = found
last_error found n (line ∷ lines) =
    last_error (if is_error line then some (n, line) else found) (n + 1) lines

abbrev pub is_some {ℓ} : {A : Type ℓ} → Option A → Bool
is_some none = false
is_some (some a) = true

scan_seen :
    (lines : List Text) (n : ℕ) (s : Scan)
    → s.test_result_seen ≡ true
    → ((scan n lines s).error ≡ s.error)
      × ((scan n lines s).failed ≡ s.failed || any is_fail lines)
      × (any is_fail lines ≡ false → (scan n lines s).passed ≡ s.passed || any is_pass lines)
unfolding scan
scan_seen [] n s h = ground arith
scan_seen (line ∷ lines) n s h = ground (
  arith,
  scan_seen lines (n + 1) (record s { passed = true; test_result_seen = true }),
  scan_seen lines (n + 1) s,
)

abbrev error_in : Scan → ℕ → List Text → Option (ℕ × Text)
error_in s n lines = last_error s.error n (upto_result lines)

abbrev noted : Scan → ℕ → Text → Scan
noted s n line = if is_error line then record s { error = some (n, line); failed = true } else s

scan_unseen :
    (lines : List Text) (n : ℕ) (s : Scan)
    → s.test_result_seen ≡ false
    → s.passed ≡ false
    → s.failed ≡ is_some s.error
    → ((scan n lines s).error ≡ error_in s n lines)
      × ((scan n lines s).failed ≡ is_some (error_in s n lines) || any is_fail lines)
      × (any is_fail lines ≡ false → (scan n lines s).passed ≡ any is_pass lines)
unfolding scan
scan_unseen [] n s h p f = ground arith
scan_unseen (line ∷ lines) n s h p f = ground (
  arith,
  scan_seen lines (n + 1) (record (noted s n line) { test_result_seen = true; passed = true }),
  scan_unseen lines (n + 1) (noted s n line),
)

-- The whole verdict on a log. If a line up to the first announced result shows an error, the test
-- fails, with the extract around the last such line and the failure mode that this line gives. If
-- none does and a line announces a failure, the check itself fails with an exception. Otherwise
-- the test passes exactly if a line announces a pass, and nothing is extracted.
pub uvm_log_verdict :
    (lines : List Text)
    → check_ibex_uvm_log lines ≡ elim (last_error none 1 (upto_result lines)) [
      | some (n, line) ↦ ok (false, extract n 1 lines, failure_mode_of line)
      | none ↦
          if any is_fail lines
          then raise no_error_line
          else ok (any is_pass lines, [], FailureMode.none)
    ]
unfolding check_ibex_uvm_log
uvm_log_verdict lines = ground (arith, scan_unseen lines 1 start)
