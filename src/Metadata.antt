-- ===== src/Metadata.antt =====
-- dv/uvm/core_ibex/scripts/metadata.py: the selection of directed tests, the numbers of runs, and
-- the TEST.SEED texts of a regression.
pub mod Seeds
pub mod Args
pub mod Runs
use emucpu.Prelude.{
  ℕ, zero, suc, ◌+◌, Bool, true, false, not, ◌==◌, ◌||◌, if◌then◌else◌, List, [], ◌∷◌, ◌++◌, map,
  Option, none, some, Result, ok, raise, ◌>>=◌, any, flatten, map_ok,
}
use emucpu.Prelude.Dict.{Dict, lookup, insert}
use emucpu.Prelude.Int.{ℤ, pos, negsuc}
use emucpu.Prelude.Text.{Text, codes, text_eq, show_nat}
use emucpu.IbexConfig.Fields.{Config}
use emucpu.IbexConfig.Value.{Value, integer, text, as_int}
use emucpu.IbexCmd.Filter.{TestEntry, FilterError, filter_tests_by_config}
use emucpu.Requirements.Check.{split_on}

-- `TestType`
pub data TestType : Type 0 where
  riscvdv directed : TestType

-- The exceptions: no match in the lists, an entry that is not well-formed, one without the key, and
-- those of the selection.
pub data MetadataError : Type 0 where
  no_matching_tests : MetadataError
  assertion_error : MetadataError
  key_error : Text → MetadataError
  filter_error : FilterError → MetadataError
  no_tests : MetadataError

-- `self.iterations or entry['iterations']`
unfoldable pub iterations_of : Option ℕ → TestEntry → Result MetadataError Value
iterations_of (some (suc n)) entry = ok (integer (pos (suc n)))
iterations_of _ entry = elim (lookup (codes "iterations") entry) [
  | none ↦ raise (key_error (codes "iterations"))
  | some v ↦ ok v
]

-- `entry['iterations'] > 0`, on numbers.
unfoldable pub is_positive : Value → Bool
unfolding as_int
is_positive v = elim (as_int v) [ some (pos (suc n)) ↦ true | _ ↦ false ]

unfoldable pub is_selected : Text → TestEntry → Bool
unfolding split_on
is_selected test entry =
    any (λ x. text_eq x (codes "all_directed")) (split_on b',' test)
    || elim (lookup (codes "test") entry) [
      | some (text name) ↦ any (λ x. text_eq x name) (split_on b',' test)
      | _ ↦ false
    ]

-- A selected test with its iterations, before the tests still to come.
unfoldable pub with_iterations :
    TestEntry
    → Result MetadataError Value
    → Result MetadataError (List TestEntry)
    → Result MetadataError (List TestEntry)
unfolding is_positive
with_iterations entry n rest = n >>= λ v.
    rest >>= λ more. ok (if is_positive v then insert (codes "iterations") v entry ∷ more else more)

-- The loop of `process_directed_testlist`, on the tests of the decoded list.
unfoldable pub process_directed_testlist :
    Text → Option ℕ → List TestEntry → Result MetadataError (List TestEntry)
unfolding iterations_of with_iterations is_selected
process_directed_testlist test iterations [] = ok []
process_directed_testlist test iterations (entry ∷ entries) =
    let rest = process_directed_testlist test iterations entries in
    if is_selected test entry
    then with_iterations entry (iterations_of iterations entry) rest
    else rest

pub record TestCount : Type 0 where
  pub test : Text
  pub count : ℕ
  pub testtype : TestType

-- The tuple of a test, with the checks on its name and its iterations.
unfoldable pub count_of : TestType → Option Value → Option Value → Result MetadataError TestCount
unfolding as_int
count_of t none iterations = raise (key_error (codes "test"))
count_of t (some name) none = raise (key_error (codes "iterations"))
count_of t (some (text name)) (some v) = elim (as_int v) [
  | some (pos (suc n)) ↦ ok (record { test = name; count = suc n; testtype = t })
  | _ ↦ raise assertion_error
]
count_of t (some _) (some v) = raise assertion_error

unfoldable pub test_count : TestType → TestEntry → Result MetadataError TestCount
unfolding count_of
test_count t entry = count_of t (lookup (codes "test") entry) (lookup (codes "iterations") entry)

unfoldable pub filtered : Config → List TestEntry → Result MetadataError (List TestEntry)
unfolding filter_tests_by_config
filtered cfg tests = elim (filter_tests_by_config cfg tests) [
  | raise e ↦ raise (filter_error e)
  | ok kept ↦ ok kept
]

unfoldable pub counts_of :
    Config → List TestEntry → List TestEntry → Result MetadataError (List TestCount)
unfolding filtered test_count
counts_of cfg riscvdv_matched directed_matched = do
  riscvdv_kept ← filtered cfg riscvdv_matched
  directed_kept ← filtered cfg directed_matched
  riscvdv_counts ← map_ok (test_count riscvdv) riscvdv_kept
  directed_counts ← map_ok (test_count directed) directed_kept
  ok (riscvdv_counts ++ directed_counts)

abbrev both_empty : List TestEntry → List TestEntry → Bool
both_empty [] [] = true
both_empty _ _ = false

-- `get_tests_and_counts`, on the two matched lists.
unfoldable pub get_tests_and_counts :
    Config → List TestEntry → List TestEntry → Result MetadataError (List TestCount)
unfolding counts_of
get_tests_and_counts cfg riscvdv_matched directed_matched =
    if both_empty riscvdv_matched directed_matched
    then raise no_matching_tests
    else counts_of cfg riscvdv_matched directed_matched

-- `f"{test}.{testseed}"` for `count` seeds from `seed`.
unfoldable pub seeds_from : Text → ℕ → ℕ → List Text
seeds_from test seed zero = []
seeds_from test seed (suc count) =
    (test ++ codes "." ++ show_nat seed) ∷ seeds_from test (seed + 1) count

-- The TEST.SEED texts of the runs, in the order in which their metadata is made.
unfoldable pub tests_and_seeds : ℕ → List TestCount → List Text
unfolding seeds_from
tests_and_seeds seed [] = []
tests_and_seeds seed (c ∷ counts) = seeds_from c.test seed c.count ++ tests_and_seeds seed counts
