-- ===== src/Tests/Metadata.antt =====
-- TEST.SEED texts and the tests of a regression.
use emucpu.Prelude.{false, map, select, none, List, [], ◌∷◌, ok, map_ok, All, ◌≡◌, refl}
use emucpu.Prelude.Dict.{lookup}
use emucpu.Prelude.Int.{pos}
use emucpu.Prelude.Text.{codes, text_eq}
use emucpu.IbexConfig.Value.{integer, text}
use emucpu.IbexCmd.Filter.{TestEntry}
use emucpu.LogCheck.Modes.{TestRunResult}
use emucpu.LogCheck.Collect.{test_dot_seed}
use emucpu.TestEntry.{read_test_dot_seed, is_not_dot}
use emucpu.TestEntry.RoundTrip.{read_test_dot_seed-test_dot_seed}
use emucpu.Metadata.{TestCount, riscvdv, directed, tests_and_seeds, get_tests_and_counts}
use emucpu.Metadata.Seeds.{tests_and_seeds-all_runs}
use emucpu.Metadata.Args.{str_value, int_value, bool_value, dict_value, arg_list_initializer}
use emucpu.Metadata.Args.Typed.{IsDeclared, arg_list_initializer-IsDeclared}
use emucpu.Metadata.Runs.{Regression, same_type, tds_list, create}
use emucpu.Metadata.Runs.Listed.{create-tds_list}
use emucpu.Tests.Config.{small_config}

abbrev run : TestRunResult
run = record {
  passed = none;
  failure_mode = none;
  failure_message = none;
  timeout_s = none;
  testname = codes "riscv_csr_test";
  seed = 12345;
  rtl_log_name = codes "rtl_sim.log";
}

read_test_dot_seed-test_dot_seed_example :
    read_test_dot_seed (test_dot_seed run) ≡ ok (codes "riscv_csr_test", 12345)
unfolding is_not_dot
read_test_dot_seed-test_dot_seed_example = read_test_dot_seed-test_dot_seed run (λ e. cc) refl

abbrev counts : List TestCount
counts =
    record { test = codes "riscv_csr_test"; count = 2; testtype = riscvdv }
    ∷ record { test = codes "empty"; count = 1; testtype = directed }
    ∷ []

tests_and_seeds-all_runs_example :
    map_ok read_test_dot_seed (tests_and_seeds 7 counts)
    ≡ ok ((codes "riscv_csr_test", 7) ∷ (codes "riscv_csr_test", 8) ∷ (codes "empty", 7) ∷ [])
unfolding is_not_dot
tests_and_seeds-all_runs_example =
    tests_and_seeds-all_runs 7 counts ((λ e. cc, refl), ((λ e. cc, refl), tt))

abbrev entry_with : TestEntry
entry_with =
    (codes "test", text (codes "riscv_csr_test")) ∷ (codes "iterations", integer (pos 2)) ∷ []

counted :
    get_tests_and_counts small_config (entry_with ∷ []) []
    ≡ ok (record { test = codes "riscv_csr_test"; count = 2; testtype = riscvdv } ∷ [])
unfolding get_tests_and_counts lookup text_eq map_ok
counted = refl

abbrev regression : Regression
regression = record {
  seed = 1;
  simulator = codes "xlm";
  iss = codes "spike";
  dir_metadata = codes "/o/m";
  dir_tests = codes "/o/run/tests";
  pickle_file = codes "/o/m/metadata.pickle";
  directed_tests = ((codes "test", text (codes "empty")) ∷ []) ∷ [];
}

abbrev tests : List (TestCount × TestEntry)
tests =
    (
      record { test = codes "riscv_csr_test"; count = 2; testtype = riscvdv },
      (codes "sim_opts", text (codes "+discrete_debug_module=1 +a=b")) ∷ [],
    )
    ∷ (record { test = codes "empty"; count = 1; testtype = directed }, [])
    ∷ []

create-tds_list_example :
    map
      (λ r. r.testdotseed)
      (select (λ r. same_type r.testtype riscvdv) (create false none (pos 7) regression tests).0)
    ≡ codes "riscv_csr_test.7" ∷ codes "riscv_csr_test.8" ∷ []
unfolding create tds_list
create-tds_list_example = create-tds_list riscvdv none 7 regression tests refl

arg_list_initializer-IsDeclared_example : All IsDeclared (
    (codes "raw_args_str", str_value (codes "SEED=5 TEST='a b' COV=0"))
    ∷ (
      codes "raw_args_dict",
      dict_value
          ((codes "SEED", codes "5") ∷ (codes "TEST", codes "a b") ∷ (codes "COV", codes "0") ∷ []),
    )
    ∷ (codes "seed", int_value (pos 5))
    ∷ (codes "cov", bool_value false)
    ∷ (codes "test", str_value (codes "a b"))
    ∷ [])
unfolding arg_list_initializer text_eq
arg_list_initializer-IsDeclared_example =
    arg_list_initializer-IsDeclared (codes "SEED=5 TEST='a b' COV=0") refl
