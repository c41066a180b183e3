-- ===== src/Metadata/Runs.antt =====
-- `_main` of metadata.py: the records of the runs that it makes for a regression, and the lists of
-- TEST.SEED texts that it prints for the build.
pub mod Listed
use emucpu.Prelude.{
  ℕ, zero, suc, ◌+◌, Bool, true, false, not, ◌==◌, leb, if◌then◌else◌, List, [], ◌∷◌, ◌++◌, map,
  select, Option, none, some, Result, ok, raise, ◌>>=◌, ◌>>◌, guard,
}
use emucpu.Prelude.Int.{ℤ, pos, negsuc, int_eq}
use emucpu.Prelude.Text.{Text, codes, text_eq, show_nat, join}
use emucpu.Prelude.Dict.{Dict, lookup}
use emucpu.IbexConfig.Value.{Value, text, null, boolean, integer}
use emucpu.IbexCmd.Filter.{TestEntry}
use emucpu.Requirements.Check.{split_on}
use emucpu.Conductor.Prove.{parse_int}
use emucpu.Stdlib.OsPath.{join_path}
use emucpu.Stdlib.Shlex.{ShlexError, shlex_split}
use emucpu.Metadata.{TestType, riscvdv, directed, TestCount}

-- An option that cannot be divided into words, or is no text; a plusarg of sim_opts that is not a
-- name and a value, or whose value is no number; no directed test of that name.
pub data RunsError : Type 0 where
  bad_words : ShlexError → RunsError
  type_error : Text → RunsError
  unpack_error : Text → RunsError
  value_error : Text → RunsError
  stop_iteration : Text → RunsError
  bad_iterations : RunsError
  bad_start_seed : RunsError
  no_tests : RunsError

-- What the runs are made with: attributes of the regression's metadata, and the tests of the decoded
-- list of directed tests.
pub record Regression : Type 0 where
  pub seed : ℕ
  pub simulator : Text
  pub iss : Text
  pub dir_metadata : Text
  pub dir_tests : Text
  pub pickle_file : Text
  pub directed_tests : List (Dict Value)

-- The options that the test list has for a test of riscv-dv.
pub record TestOptions : Type 0 where
  pub gen_test : List Text
  pub gen_opts : List Text
  pub rtl_test : List Text
  pub sim_opts : List Text

-- A `TestRunResult`, with the attributes that are set here; what else it has is unset.
pub record NewRun : Type 0 where
  pub testtype : TestType
  pub testdotseed : Text
  pub testname : Text
  pub seed : ℕ
  pub rtl_simulator : Text
  pub iss_cosim : Text
  pub dir_test : Text
  pub metadata_pickle_file : Text
  pub pickle_file : Text
  pub yaml_file : Text
  pub options : Option TestOptions
  pub is_discrete_debug_module : Option Bool
  pub directed_data : Option (Dict Value)

abbrev or_bad_words : Result ShlexError (List Text) → Result RunsError (List Text)
or_bad_words (ok words) = ok words
or_bad_words (raise e) = raise (bad_words e)

-- `shlex_if_not_empty(field)`
unfoldable pub words_of_field : TestEntry → Text → Result RunsError (List Text)
unfolding lookup shlex_split
words_of_field obj field = elim (lookup field obj) [
  | none ↦ ok []
  | some null ↦ ok []
  | some (boolean false) ↦ ok []
  | some (integer (pos zero)) ↦ ok []
  | some (text s) ↦ or_bad_words (shlex_split s)
  | some _ ↦ raise (type_error field)
]

-- The pair that `split('=')` is to give.
unfoldable pub two_parts : Text → List Text → Result RunsError (Text × Text)
two_parts opt (plusarg ∷ val ∷ []) = ok (plusarg, val)
two_parts opt _ = raise (unpack_error opt)

abbrev int_of : Text → Result RunsError ℤ
int_of val = elim (parse_int val) [ ok i ↦ ok i | raise e ↦ raise (value_error val) ]

-- The loop over `sim_opts`, with the attribute as it is.
unfoldable pub discrete_debug : Option Bool → List Text → Result RunsError (Option Bool)
unfolding two_parts split_on text_eq parse_int
discrete_debug old [] = ok old
discrete_debug old (opt ∷ sim_opts) = do
  p ← two_parts opt (split_on b'=' opt)
  new ←
      (if text_eq p.0 (codes "+discrete_debug_module")
        then (do i ← int_of p.1; ok (some (not (int_eq i (pos 0)))))
        else ok old)
  discrete_debug new sim_opts

unfoldable pub test_options : TestEntry → Result RunsError TestOptions
unfolding words_of_field
test_options obj = do
  gen_test ← words_of_field obj (codes "gen_test")
  gen_opts ← words_of_field obj (codes "gen_opts")
  rtl_test ← words_of_field obj (codes "rtl_test")
  sim_opts ← words_of_field obj (codes "sim_opts")
  ok (record { gen_test = gen_test; gen_opts = gen_opts; rtl_test = rtl_test; sim_opts = sim_opts })

-- `next(filter(lambda i: i['test'] == test, ...))`; every test of the decoded list has that key.
unfoldable pub directed_data_of : Text → List (Dict Value) → Result RunsError (Dict Value)
unfolding lookup text_eq
directed_data_of test [] = raise (stop_iteration test)
directed_data_of test (i ∷ tests) =
    let later = directed_data_of test tests in
    elim (lookup (codes "test") i) [
      | some (text name) ↦ if text_eq name test then ok i else later
      | _ ↦ later
    ]

-- `f"{test}.{testseed}"`
unfoldable pub tds_str : Text → ℕ → Text
unfolding show_nat
tds_str test testseed = test ++ codes "." ++ show_nat testseed

-- The record of a run before the options of its kind.
unfoldable pub new_run : Regression → TestCount → ℕ → NewRun
unfolding tds_str join_path
new_run md c testseed =
    let tds = tds_str c.test testseed in
    record {
      testtype = c.testtype;
      testdotseed = tds;
      testname = c.test;
      seed = testseed;
      rtl_simulator = md.simulator;
      iss_cosim = md.iss;
      dir_test = join_path md.dir_tests tds;
      metadata_pickle_file = md.pickle_file;
      pickle_file = join_path md.dir_metadata (tds ++ codes ".pickle");
      yaml_file = join_path (join_path md.dir_tests tds) (codes "trr.yaml");
      options = none;
      is_discrete_debug_module = none;
      directed_data = none;
    }

unfoldable pub complete_run : Regression → TestEntry → TestType → NewRun → Result RunsError NewRun
unfolding test_options discrete_debug directed_data_of
complete_run md obj riscvdv trr = do
  opts ← test_options obj
  discrete ← discrete_debug none opts.sim_opts
  ok (record trr { options = some opts; is_discrete_debug_module = discrete })
complete_run md obj directed trr = directed_data_of trr.testname md.directed_tests >>= λ found.
    ok (record trr { directed_data = some found })

-- The runs that have been written to disk, and what was raised.
abbrev pub Exported : Type 0
Exported = List NewRun × Option RunsError

unfoldable pub and_then : Exported → Exported → Exported
and_then (runs, none) more = (runs ++ more.0, more.1)
and_then (runs, some e) more = (runs, some e)

abbrev exported_run : Result RunsError NewRun → Exported
exported_run (ok trr) = (trr ∷ [], none)
exported_run (raise e) = ([], some e)

-- The loop over the seeds of a test, from one on.
unfoldable pub export_seeds : Regression → TestCount → TestEntry → ℕ → ℕ → Exported
unfolding new_run complete_run and_then
export_seeds md c obj testseed zero = ([], none)
export_seeds md c obj testseed (suc count) =
    and_then (exported_run (complete_run md obj c.testtype (new_run md c testseed)))
      (export_seeds md c obj (testseed + 1) count)

-- The loop over the tests with their entries.
unfoldable pub export_tests : Regression → List (TestCount × TestEntry) → Exported
unfolding export_seeds and_then
export_tests md [] = ([], none)
export_tests md ((c, obj) ∷ tests) =
    and_then (export_seeds md c obj md.seed c.count) (export_tests md tests)

-- The checks of `_get_ibex_metadata` on `iterations` and `seed`.
unfoldable pub get_ibex_metadata : Option ℤ → ℤ → Result RunsError ℕ
get_ibex_metadata (some (pos zero)) seed = raise bad_iterations
get_ibex_metadata (some (negsuc n)) seed = raise bad_iterations
get_ibex_metadata iterations (negsuc n) = raise bad_start_seed
get_ibex_metadata iterations (pos seed) = ok seed

abbrev has_tests : List (TestCount × TestEntry) → Bool
has_tests [] = false
has_tests (c ∷ tests) = true

abbrev export_checked : Regression → List (TestCount × TestEntry) → Result RunsError ℕ → Exported
export_checked md tests (raise e) = ([], some e)
export_checked md tests (ok seed) =
    if has_tests tests then export_tests (record md { seed = seed }) tests else ([], some no_tests)

-- The operation that creates the metadata, on whether there is some already, the arguments for the
-- iterations and the first seed, and the tests that get_tests_and_counts finds.
unfoldable pub create : Bool → Option ℤ → ℤ → Regression → List (TestCount × TestEntry) → Exported
unfolding get_ibex_metadata export_tests
create exists iterations seed md tests =
    if exists then ([], none) else export_checked md tests (get_ibex_metadata iterations seed)

abbrev pub same_type : TestType → TestType → Bool
same_type riscvdv riscvdv = true
same_type directed directed = true
same_type _ _ = false

-- `tds_list` for the field riscvdv_tds or directed_tds: the loop over the seeds.
unfoldable pub typed_seeds : TestType → TestCount → ℕ → ℕ → List Text
unfolding tds_str
typed_seeds t c testseed zero = []
typed_seeds t c testseed (suc count) =
    let rest = typed_seeds t c (testseed + 1) count in
    if same_type c.testtype t then tds_str c.test testseed ∷ rest else rest

unfoldable pub tds_list : TestType → ℕ → List TestCount → List Text
unfolding typed_seeds
tds_list t seed [] = []
tds_list t seed (c ∷ counts) = typed_seeds t c seed c.count ++ tds_list t seed counts
