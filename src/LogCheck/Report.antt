-- ===== src/LogCheck/Report.antt =====
-- The text report of a regression: `gen_test_run_result_text` of report_lib/util.py, and
-- `box_comment` and `output_results_text` of report_lib/text.py. The paths that are shown relative
-- to the test's directory are a parameter, and so is the summary line, which prints a percentage.
pub mod Message
use emucpu.Prelude.{
  ℕ, Bool, true, false, if◌then◌else◌, List, [], ◌∷◌, ◌++◌, map, Option, none, some, length,
  replicate, flatten,
}
use emucpu.Prelude.Dict.{Dict}
use emucpu.Prelude.Text.{Text, codes, join}
use emucpu.IbexConfig.Value.{Value, text}
use emucpu.LogCheck.Modes.{TestRunResult}
use emucpu.LogCheck.Collect.{is_passed, test_dot_seed}
use emucpu.Requirements.Check.{split_on}
use emucpu.ScriptsLib.{pprint_dict}

-- The text that `pprint_dict` writes for a dictionary of texts.
unfoldable pub pprint_texts : Dict Text → Text
unfolding pprint_dict
pprint_texts d = pprint_dict (λ _. []) (map (λ e. (e.0, text e.1)) d)

-- The lines of a text that ends with a newline.
unfoldable pub read_lines : List Text → List Text
read_lines [] = []
read_lines (last ∷ []) = []
read_lines (line ∷ next ∷ lines) = line ∷ read_lines (next ∷ lines)

-- `str(trr.failure_message)`
unfoldable pub show_message : Option Text → Text
show_message none = codes "None"
show_message (some message) = message

unfoldable pub last_info : TestRunResult → Text
unfolding is_passed show_message
last_info trr = if is_passed trr then codes "\n[PASSED]" else show_message trr.failure_message

unfoldable pub info_lines : Dict Text → TestRunResult → List Text
unfolding test_dot_seed pprint_texts read_lines split_on
info_lines lesskeys trr =
    test_dot_seed trr
    ∷ replicate (length (test_dot_seed trr)) b'-'
    ∷ read_lines (split_on 10 (pprint_texts lesskeys))

-- `gen_test_run_result_text`
unfoldable pub gen_test_run_result_text : Dict Text → TestRunResult → Text
unfolding info_lines last_info join
gen_test_run_result_text lesskeys trr =
    codes "\n" ++ join (codes "\n") (info_lines lesskeys trr ++ last_info trr ∷ []) ++ codes "\n"

unfoldable pub box_comment : Text → Text
box_comment line = replicate 80 b'#' ++ codes "\n# " ++ line ++ codes "\n" ++ replicate 80 b'#'

-- A heading with the tests under it.
unfoldable pub details : (TestRunResult → Dict Text) → Text → Text → List TestRunResult → Text
unfolding box_comment gen_test_run_result_text
details lesskeys title if_none [] =
    codes "\n" ++ box_comment title ++ codes "\n" ++ if_none ++ codes "\n"
details lesskeys title if_none (trr ∷ trrs) =
    codes "\n"
    ++ box_comment title
    ++ codes "\n"
    ++ flatten (map (λ t. gen_test_run_result_text (lesskeys t) t ++ codes "\n") (trr ∷ trrs))

-- `output_results_text`
unfoldable pub output_results_text :
    (TestRunResult → Dict Text) → Text → List TestRunResult → List TestRunResult → Dict Text → Text
unfolding details pprint_texts
output_results_text lesskeys summary_line passing_tests failing_tests summary_dict =
    summary_line
    ++ codes "\n"
    ++ pprint_texts summary_dict
    ++ codes "\n"
    ++ details lesskeys (codes "Details of failing tests") (codes "No failing tests. Nice job!")
        failing_tests
    ++ details lesskeys (codes "Details of passing tests") (codes "No passing tests. Hmmmm...")
        passing_tests
