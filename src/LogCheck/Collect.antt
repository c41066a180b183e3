-- ===== src/LogCheck/Collect.antt =====
-- `main` of collect_results.py, as far as it decides: the loop over the pickled results, the
-- summary of runs by test (report_lib/util.py) and the exit code. A pickle is a loaded result, or
-- the text of the RuntimeError that loading it raised.
pub mod Counts
use emucpu.Prelude.{
  ℕ, ◌+◌, Bool, true, false, not, if◌then◌else◌, List, [], ◌∷◌, ◌++◌, Option, none, some, Result,
  ok, raise, ◌>>=◌,
}
use emucpu.Prelude.Dict.{Dict, lookup, insert}
use emucpu.Prelude.Text.{Text, codes, show_nat}
use emucpu.LogCheck.Modes.{TestRunResult}
use emucpu.LogCheck.Verdict.{is_timeout}

-- `if trr.passed`
unfoldable pub is_passed : TestRunResult → Bool
is_passed trr = elim trr.passed [ some true ↦ true | _ ↦ false ]

-- `f"{trr.testname}.{trr.seed}"`
unfoldable pub test_dot_seed : TestRunResult → Text
unfolding show_nat
test_dot_seed trr = trr.testname ++ codes "." ++ show_nat trr.seed

unfoldable pub summary_entry : TestRunResult → Text
unfolding is_passed is_timeout
summary_entry trr =
    if is_passed trr
    then codes "PASS"
    else codes "FAILED" ++ (if is_timeout trr.failure_mode then codes " {T}" else [])

pub record Collected : Type 0 where
  pub summary_dict : Dict Text
  pub passing_tests : List TestRunResult
  pub failing_tests : List TestRunResult

-- What stops the script: `TestRunResult(name=…)` in the handler, since the class has no field of
-- that name, and the division by the number of tests in the summary line.
pub data CollectError : Type 0 where
  unexpected_keyword : CollectError
  zero_division : CollectError

unfoldable pub collect_one : Collected → TestRunResult → Collected
unfolding is_passed summary_entry test_dot_seed
collect_one c trr =
    let summary = insert (test_dot_seed trr) (summary_entry trr) c.summary_dict in
    if is_passed trr
    then record c { summary_dict = summary; passing_tests = c.passing_tests ++ trr ∷ [] }
    else record c { summary_dict = summary; failing_tests = c.failing_tests ++ trr ∷ [] }

-- The loop over `md.tests_pickle_files`.
unfoldable pub collect_from :
    List (Result Text TestRunResult) → Collected → Result CollectError Collected
unfolding collect_one
collect_from [] c = ok c
collect_from (ok trr ∷ pickles) c = collect_from pickles (collect_one c trr)
collect_from (raise e ∷ pickles) c = raise unexpected_keyword

pub record RunCounts : Type 0 where
  pub passing : ℕ
  pub failing : ℕ

abbrev no_runs : RunCounts
no_runs = record { passing = 0; failing = 0 }

abbrev pub counts_of : Option RunCounts → RunCounts
counts_of none = no_runs
counts_of (some c) = c

unfoldable pub count_run : Bool → RunCounts → RunCounts
count_run true c = record c { passing = c.passing + 1 }
count_run false c = record c { failing = c.failing + 1 }

-- The loop of `create_test_summary_dict`: a new name starts at zero, then the run is counted.
unfoldable pub summary_from : List TestRunResult → Dict RunCounts → Dict RunCounts
unfolding is_passed count_run
summary_from [] d = d
summary_from (test ∷ tests) d =
    summary_from tests
      (insert test.testname (count_run (is_passed test) (counts_of (lookup test.testname d))) d)

unfoldable pub create_test_summary_dict : List TestRunResult → Dict RunCounts
unfolding summary_from
create_test_summary_dict tests = summary_from tests []

pub record Report : Type 0 where
  pub collected : Collected
  pub test_summary_dict : Dict RunCounts
  pub exit_code : ℕ

-- `gen_summary_line` divides by the number of tests.
unfoldable pub check_nonempty : Collected → Result CollectError (Unit {0})
check_nonempty c = elim (c.passing_tests ++ c.failing_tests) [
  | [] ↦ raise zero_division
  | _ ↦ ok tt
]

-- `return 1 if failing_tests else 0`
unfoldable pub exit_code_of : List TestRunResult → ℕ
exit_code_of [] = 0
exit_code_of (t ∷ ts) = 1

unfoldable pub collect_results : List (Result Text TestRunResult) → Result CollectError Report
unfolding collect_from check_nonempty create_test_summary_dict exit_code_of
collect_results pickles = do
  c ← collect_from pickles (record { summary_dict = []; passing_tests = []; failing_tests = [] })
  nonempty ← check_nonempty c
  ok (record {
    collected = c;
    test_summary_dict = create_test_summary_dict (c.passing_tests ++ c.failing_tests);
    exit_code = exit_code_of c.failing_tests;
  })
