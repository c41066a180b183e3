-- ===== src/LogCheck/Collect/Counts.antt =====
-- The partition of the results, the exit code, and the counts of runs by test.
use emucpu.Prelude.{
  ℕ, ◌+◌, Bool, true, false, not, ◌&&◌, if◌then◌else◌, List, [], ◌∷◌, ◌++◌, map, Result, ok, raise,
  all, select, length, length-append, arith, ◌≡◌, ◌≢◌, ◌↔◌, refl, ap, is_ok, ◌∙◌,
}
use mathlib.Core.List.{append-nil, append_assoc}
use emucpu.Prelude.Dict.{Dict, lookup, insert, lookup-insert}
use emucpu.Prelude.Text.{Text, text_eq, text_eq_iff}
use emucpu.LogCheck.Modes.{TestRunResult}
use emucpu.LogCheck.Collect.{
  is_passed, Collected, collect_one, collect_from, RunCounts, counts_of, count_run, summary_from,
  create_test_summary_dict, Report, check_nonempty, exit_code_of, collect_results,
}

-- The runs of the test with this name that passed (`p` true), or that did not.
abbrev counted : Bool → Bool → Bool
counted true b = b
counted false b = not b

abbrev pub runs : Bool → Text → List TestRunResult → ℕ
runs p name [] = 0
runs p name (t ∷ ts) =
    (if text_eq t.testname name && counted p (is_passed t) then 1 else 0) + runs p name ts

summary_from-counts :
    (ts : List TestRunResult) (d : Dict RunCounts) (name : Text)
    → ((counts_of (lookup name (summary_from ts d))).passing
        ≡ (counts_of (lookup name d)).passing + runs true name ts)
      × ((counts_of (lookup name (summary_from ts d))).failing
          ≡ (counts_of (lookup name d)).failing + runs false name ts)
unfolding summary_from
summary_from-counts [] d name = ground arith
summary_from-counts (t ∷ ts) d name =
    let counts = count_run (is_passed t) (counts_of (lookup t.testname d)) in
    ground (
      arith,
      summary_from-counts ts (insert t.testname counts d) name,
      lookup-insert t.testname name counts d,
      text_eq_iff t.testname name,
    )

-- The summary dictionary counts, for every test name, the runs of that test that passed and those
-- that did not; a name that it lacks counts as no runs.
pub summary-runs :
    (ts : List TestRunResult) (name : Text)
    → counts_of (lookup name (create_test_summary_dict ts))
      ≡ record { passing = runs true name ts; failing = runs false name ts }
unfolding create_test_summary_dict lookup
summary-runs ts name = ground (arith, summary_from-counts ts [] name)

-- Summing over the two halves of a partition.
runs-append :
    (p : Bool) (name : Text) (xs ys : List TestRunResult)
    → runs p name (xs ++ ys) ≡ runs p name xs + runs p name ys
runs-append p name [] ys = omega arith
runs-append p name (x ∷ xs) ys = omega (arith, runs-append p name xs ys)

abbrev pub passing_of : List TestRunResult → List TestRunResult
passing_of ts = select is_passed ts

abbrev pub failing_of : List TestRunResult → List TestRunResult
failing_of ts = select (λ t. not (is_passed t)) ts

runs-partition :
    (p : Bool) (name : Text) (ts : List TestRunResult)
    → runs p name (passing_of ts) + runs p name (failing_of ts) ≡ runs p name ts
runs-partition p name [] = refl
runs-partition p name (t ∷ ts) = ground (arith, runs-partition p name ts)

length-partition :
    (ts : List TestRunResult) → length (passing_of ts) + length (failing_of ts) ≡ length ts
length-partition [] = refl
length-partition (t ∷ ts) = ground (arith, length-partition ts)

collect_from-partition :
    (ts : List TestRunResult) (c : Collected)
    → (c' : Collected) × (collect_from (map ok ts) c ≡ ok c')
      × (c'.passing_tests ≡ c.passing_tests ++ passing_of ts)
      × (c'.failing_tests ≡ c.failing_tests ++ failing_of ts)
unfolding collect_from
collect_from-partition [] c = (c, refl, rw append-nil, rw append-nil)
collect_from-partition (t ∷ ts) c =
    let (c', found, passing, failing) = collect_from-partition ts (collect_one c t) in
    (
      c',
      found,
      ground (arith, append_assoc c.passing_tests (t ∷ []) (passing_of ts)),
      ground (arith, append_assoc c.failing_tests (t ∷ []) (failing_of ts)),
    )

abbrev empty : Collected
empty = record { summary_dict = []; passing_tests = []; failing_tests = [] }

check_nonempty-ok :
    (c : Collected) → c.passing_tests ++ c.failing_tests ≢ [] → check_nonempty c ≡ ok tt
unfolding check_nonempty
check_nonempty-ok c h = ground arith

partition-ne-nil :
    (t : TestRunResult) (ts : List TestRunResult) → passing_of (t ∷ ts) ++ failing_of (t ∷ ts) ≢ []
partition-ne-nil t ts e = absurd (
    omega (
      arith,
      ap length e,
      length-append (passing_of (t ∷ ts)) (failing_of (t ∷ ts)),
      length-partition (t ∷ ts),
    ))

abbrev report_of : Collected → Report
report_of c = record {
  collected = c;
  test_summary_dict = create_test_summary_dict (c.passing_tests ++ c.failing_tests);
  exit_code = exit_code_of c.failing_tests;
}

collect_results-report :
    (pickles : List (Result Text TestRunResult)) (c : Collected)
    → collect_from pickles empty ≡ ok c
    → c.passing_tests ++ c.failing_tests ≢ []
    → collect_results pickles ≡ ok (report_of c)
unfolding collect_results
collect_results-report pickles c h n = rw (h, check_nonempty-ok c n)

exit_code-all :
    (ts : List TestRunResult) → (exit_code_of (failing_of ts) ≡ 0) ↔ (all is_passed ts ≡ true)
unfolding exit_code_of
exit_code-all [] = ground arith
exit_code-all (t ∷ ts) = ground (arith, exit_code-all ts)

-- From any results that all load, of which there is at least one, the script makes its report: the
-- passing and the failing tests are the results that passed and the others, in order; the counts
-- of each test name are its numbers of passing and other runs among all results; and the exit code
-- is 0 exactly if every result passed.
pub collect_results-partition :
    (t : TestRunResult) (ts : List TestRunResult)
    → (rep : Report) × (collect_results (map ok (t ∷ ts)) ≡ ok rep)
      × (rep.collected.passing_tests ≡ passing_of (t ∷ ts))
      × (rep.collected.failing_tests ≡ failing_of (t ∷ ts))
      × ((name : Text)
          → counts_of (lookup name rep.test_summary_dict)
            ≡ record { passing = runs true name (t ∷ ts); failing = runs false name (t ∷ ts) })
      × ((rep.exit_code ≡ 0) ↔ (all is_passed (t ∷ ts) ≡ true))
collect_results-partition t ts =
    let (c, found, passing, failing) = collect_from-partition (t ∷ ts) empty in
    (
      report_of c,
      collect_results-report (map ok (t ∷ ts)) c found
          (rw (passing, failing) (partition-ne-nil t ts)),
      passing,
      failing,
      λ name.
          rw (passing, failing)
            (summary-runs (passing_of (t ∷ ts) ++ failing_of (t ∷ ts)) name
              ∙ ground (
                arith,
                runs-append true name (passing_of (t ∷ ts)) (failing_of (t ∷ ts)),
                runs-append false name (passing_of (t ∷ ts)) (failing_of (t ∷ ts)),
                runs-partition true name (t ∷ ts),
                runs-partition false name (t ∷ ts),
              )),
      rw failing (exit_code-all (t ∷ ts)),
    )

collect_from-broken :
    (before after : List (Result Text TestRunResult)) (e : Text) (c : Collected)
    → is_ok (collect_from (before ++ raise e ∷ after) c) ≡ false
unfolding collect_from
collect_from-broken [] after e c = refl
collect_from-broken (ok t ∷ before) after e c = collect_from-broken before after e (collect_one c t)
collect_from-broken (raise e' ∷ before) after e c = refl

-- A result that cannot be loaded stops the script with an exception, wherever it stands among the
-- others: it is not reported as a failing test.
pub collect_broken :
    (before after : List (Result Text TestRunResult)) (e : Text)
    → is_ok (collect_results (before ++ raise e ∷ after)) ≡ false
unfolding collect_results
collect_broken before after e = ground (arith, collect_from-broken before after e empty)
