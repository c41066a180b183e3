-- ===== src/TestEntry.antt =====
-- dv/uvm/core_ibex/scripts/test_entry.py: `read_test_dot_seed` and `get_test_entry`.
pub mod RoundTrip
use emucpu.Prelude.{
  ℕ, Bool, true, false, not, ◌==◌, if◌then◌else◌, List, [], ◌∷◌, Option, none, some, Result, ok,
  raise, ◌>>=◌,
}
use emucpu.Prelude.Dict.{Dict, lookup}
use emucpu.Prelude.Text.{Text, codes, text_eq}
use emucpu.IbexConfig.Value.{Value, text, as_dict}
use emucpu.Requirements.Semver.{span, some_first, some_digits, literal, value, is_at_end}

-- `ArgumentTypeError`, where the pattern does not match.
pub data BadTestDotSeed : Type 0 where
  bad_test_dot_seed : Text → BadTestDotSeed

abbrev or_bad {ℓ κ} : {E : Type ℓ} {A : Type κ} → Text → Result E A → Result BadTestDotSeed A
or_bad arg (ok a) = ok a
or_bad arg (raise e) = raise (bad_test_dot_seed arg)

-- `([^.]+)`
unfoldable pub is_not_dot : ℕ → Bool
is_not_dot c = not (c == b'.')

abbrev ending : Text → Text → Text × Text → Result BadTestDotSeed (Text × ℕ)
ending arg name (seed, rest) =
    if is_at_end rest then ok (name, value seed) else raise (bad_test_dot_seed arg)

-- `read_test_dot_seed`, with the pattern `([^.]+)\.([0-9]+)$`.
unfoldable pub read_test_dot_seed : Text → Result BadTestDotSeed (Text × ℕ)
unfolding span is_not_dot literal some_digits is_at_end value
read_test_dot_seed arg = do
  name ← or_bad arg (some_first (span is_not_dot arg))
  seed_on ← or_bad arg (literal (codes ".") name.1)
  seed ← or_bad arg (some_digits seed_on)
  ending arg name.0 seed

-- `entry.get('test') == testname`
unfoldable pub has_name : Text → Dict Value → Bool
has_name testname entry = elim (lookup (codes "test") entry) [
  | some (text s) ↦ text_eq s testname
  | _ ↦ false
]

-- `get_test_entry`, on the entries of the decoded list; none for its `RuntimeError`.
unfoldable pub get_test_entry : Text → List (Dict Value) → Option (Dict Value)
unfolding has_name
get_test_entry testname [] = none
get_test_entry testname (entry ∷ entries) =
    if has_name testname entry then some entry else get_test_entry testname entries
