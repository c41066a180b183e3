-- ===== src/IbexCmd/Filter.antt =====
-- `filter_tests_by_config`.
pub mod Copies
use emucpu.Prelude.{
  ℕ, Bool, true, false, not, ◌==◌, ◌||◌, if◌then◌else◌, List, [], ◌∷◌, ◌++◌, map, Option, none,
  some, Result, ok, raise, ◌>>=◌, any,
}
use emucpu.Prelude.Dict.{Dict, lookup}
use emucpu.Prelude.Int.{ℤ, int_eq}
use emucpu.Prelude.Text.{Text, codes, text_eq}
use emucpu.IbexConfig.Fields.{Config}
use emucpu.IbexConfig.Value.{
  Value, Values, nil, cons, boolean, integer, text, null, sequence, mapping, entries, as_int,
}

abbrev pub TestEntry : Type 0
TestEntry = Dict Value

-- Failures of the loop: the assertion on `rtl_params`, the `ValueError` for an unknown parameter,
-- `in` on a value that has no members, and a test without a name in the warning.
pub data FilterError : Type 0 where
  params_not_a_dict : FilterError
  unknown_parameter : Text → FilterError
  not_iterable : Text → FilterError
  no_test_name : FilterError

abbrev option_int_eq : Option ℤ → Option ℤ → Bool
option_int_eq (some a) (some b) = int_eq a b
option_int_eq _ _ = false

-- `a == b` on scalars: Booleans are the numbers 0 and 1. The left side is a configuration's value,
-- which is never a list or a dictionary.
unfoldable pub value_eq : Value → Value → Bool
unfolding as_int
value_eq (text s) (text t) = text_eq s t
value_eq null null = true
value_eq a b = option_int_eq (as_int a) (as_int b)

unfoldable pub members : Values → List Value
members nil = []
members (cons v r) = v ∷ members r

-- What `config_val in p_val` searches, once a lone string or number was put in a list.
unfoldable pub candidates : Value → Option (List Value)
unfolding members entries
candidates (text s) = some (text s ∷ [])
candidates (integer i) = some (integer i ∷ [])
candidates (boolean b) = some (boolean b ∷ [])
candidates (sequence vs) = some (members vs)
candidates (mapping es) = some (map (λ e. text e.0) (entries es))
candidates null = none

-- `cfg.params.get(p, None)`, where a null is a `None` too.
unfoldable pub config_param : Config → Text → Option Value
config_param cfg p = elim (lookup p cfg.params) [ some null ↦ none | other ↦ other ]

-- One round of the inner loop: whether the parameter matches.
unfoldable pub param_matches : Config → Text → Value → Result FilterError Bool
unfolding config_param candidates value_eq
param_matches cfg p p_val = elim (config_param cfg p) [
  | none ↦ raise (unknown_parameter p)
  | some config_val ↦ elim (candidates p_val) [
    | none ↦ raise (not_iterable p)
    | some vals ↦ ok (any (value_eq config_val) vals)
  ]
]

-- `test['test']`, read for the warning.
unfoldable pub warn_rejected : TestEntry → Result FilterError (Unit {0})
warn_rejected test = elim (lookup (codes "test") test) [
  | none ↦ raise no_test_name
  | some v ↦ ok tt
]

-- The inner loop over `param_dict.items()`, with `filtered_test_list`.
unfoldable pub add_for_params :
    Config → TestEntry → Dict Value → List TestEntry → Result FilterError (List TestEntry)
unfolding param_matches warn_rejected
add_for_params cfg test [] filtered = ok filtered
add_for_params cfg test ((p, p_val) ∷ items) filtered = elim (param_matches cfg p p_val) [
  | raise e ↦ raise e
  | ok false ↦ warn_rejected test >>= λ _. ok filtered
  | ok true ↦ add_for_params cfg test items (filtered ++ test ∷ [])
]

-- One round of the outer loop, on what the test has under `rtl_params`.
unfoldable pub add_with_params :
    Config → TestEntry → List TestEntry → Option Value → Result FilterError (List TestEntry)
unfolding add_for_params
add_with_params cfg test filtered none = ok (filtered ++ test ∷ [])
add_with_params cfg test filtered (some (mapping param_dict)) =
    add_for_params cfg test (entries param_dict) filtered
add_with_params cfg test filtered (some v) = raise params_not_a_dict

unfoldable pub add_test : Config → TestEntry → List TestEntry → Result FilterError (List TestEntry)
unfolding add_with_params
add_test cfg test filtered = add_with_params cfg test filtered (lookup (codes "rtl_params") test)

unfoldable pub filter_from :
    Config → List TestEntry → List TestEntry → Result FilterError (List TestEntry)
unfolding add_test
filter_from cfg [] filtered = ok filtered
filter_from cfg (test ∷ test_list) filtered = do
  more ← add_test cfg test filtered
  filter_from cfg test_list more

unfoldable pub filter_tests_by_config :
    Config → List TestEntry → Result FilterError (List TestEntry)
unfolding filter_from
filter_tests_by_config cfg test_list = filter_from cfg test_list []
