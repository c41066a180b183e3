-- ===== src/DirectedTests.antt =====
-- dv/uvm/core_ibex/scripts/directed_test_schema.py: joining directed tests with the configurations
-- that they name, and the models that the result is made of. What pydantic makes of one field, and
-- the file system, are parameters. A path is shown by its text.
pub mod Joined
pub mod Models
pub mod Merged
use emucpu.Prelude.{
  Bool, true, false, not, ◌&&◌, ◌||◌, any, all, select, if◌then◌else◌, List, [], ◌∷◌, ◌++◌, Option,
  none, some, Result, ok, raise, ◌>>=◌, ◌>>◌, guard, map_ok,
}
use emucpu.Prelude.Int.{ℤ, int_eq}
use emucpu.Prelude.Text.{Text, codes, text_eq}
use emucpu.Prelude.Dict.{Dict, lookup, insert, mem_text}
use emucpu.IbexConfig.Value.{
  Value, text, null, sequence, mapping, boolean, integer, Values, nil, cons, as_int,
}

-- A test without its configuration, with the name or without; validation has failed, which ends the
-- program with code 1.
pub data ImportError : Type 0 where
  value_error : ImportError
  key_error : ImportError
  exit_1 : ImportError

abbrev pub or_null : Option Value → Value
or_null none = null
or_null (some v) = v

-- `d.get(key)`
unfoldable pub get : Text → Dict Value → Value
get key d = or_null (lookup key d)

abbrev pub same_int : Option ℤ → Option ℤ → Bool
same_int (some a) (some b) = int_eq a b
same_int _ _ = false

-- `a == b`. Dictionaries, which name no configuration, are taken to differ from everything.
unfoldable mutual
  pub same_value : Value → Value → Bool
  same_value (text a) (text b) = text_eq a b
  same_value null null = true
  same_value (sequence a) (sequence b) = same_values a b
  same_value a b = same_int (as_int a) (as_int b)

  pub same_values : Values → Values → Bool
  same_values nil nil = true
  same_values (cons a r) (cons b s) = same_value a b && same_values r s
  same_values _ _ = false

unfoldable pub is_null : Value → Bool
is_null null = true
is_null _ = false

-- `i.get('test') is None`
unfoldable pub is_config : Dict Value → Bool
unfolding get is_null
is_config i = is_null (get (codes "test") i)

abbrev pub config_of_entry : Dict Value → Value
unfolding get
config_of_entry i = get (codes "config") i

-- `next(filter(…))`, or `none` for StopIteration.
unfoldable pub find_config : Value → List (Dict Value) → Option (Dict Value)
unfolding same_value
find_config name [] = none
find_config name (c ∷ configs) =
    let later = find_config name configs in
    if same_value (config_of_entry c) name then some c else later

-- `{**c, **t}`
unfoldable pub join_dicts : Dict Value → Dict Value → Dict Value
join_dicts c [] = c
join_dicts c ((k, v) ∷ t) = join_dicts (insert k v c) t

-- The handler names `t['config']`, which need not be there.
unfoldable pub no_config : Dict Value → ImportError
no_config t = elim (lookup (codes "config") t) [ none ↦ key_error | some v ↦ value_error ]

unfoldable pub with_config : List (Dict Value) → Dict Value → Result ImportError (Dict Value)
unfolding find_config join_dicts no_config
with_config configs t = elim (find_config (config_of_entry t) configs) [
  | none ↦ raise (no_config t)
  | some c ↦ ok (join_dicts c t)
]

-- The classes DConfig and DTest.
pub data Model : Type 0 where
  d_config : Model
  d_test : Model

abbrev pub config_fields : List Text
config_fields =
    codes "config"
    ∷ codes "rtl_test"
    ∷ codes "rtl_params"
    ∷ codes "timeout_s"
    ∷ codes "gcc_opts"
    ∷ codes "ld_script"
    ∷ codes "includes"
    ∷ []

-- `__fields__`; a DTest has those of a DConfig first.
unfoldable pub model_fields : Model → List Text
model_fields d_config = config_fields
model_fields d_test =
    config_fields ++ (codes "test" ∷ codes "desc" ∷ codes "test_srcs" ∷ codes "iterations" ∷ [])

-- `f.annotation == pathlib.Path`
unfoldable pub is_path : Text → Bool
unfolding mem_text
is_path k = mem_text k (codes "ld_script" ∷ codes "includes" ∷ codes "test_srcs" ∷ [])

-- What pydantic makes of the value of a model's field, if it accepts it; `p.exists()`; and
-- `pathlib.Path(dt).parent/v`.
pub record Validation : Type 0 where
  pub validated : Model → Text → Value → Option Value
  pub exists : Text → Bool
  pub in_parent : Text → Text → Text

abbrev pub or_exit {ℓ} : {A : Type ℓ} → Option A → Result ImportError A
or_exit none = raise exit_1
or_exit (some a) = ok a

-- A model made of a dictionary: every field has to be there, and other keys are ignored.
unfoldable pub model_of :
    (Text → Value → Option Value) → List Text → Dict Value → Result ImportError (Dict Value)
unfolding lookup
model_of validated [] i = ok []
model_of validated (k ∷ ks) i =
    let rest = model_of validated ks i in
    or_exit (lookup k i) >>= λ v.
    or_exit (validated k v) >>= λ x. rest >>= λ fields. ok ((k, x) ∷ fields)

unfoldable pub validate_path_exists : Validation → Text → Value → Result ImportError Value
validate_path_exists v yaml (text p) =
    guard (v.exists (v.in_parent yaml p)) exit_1 >> ok (text (v.in_parent yaml p))
validate_path_exists v yaml _ = raise exit_1

-- `check_model_path_fields_exist`, with the fields it sets.
unfoldable pub check_paths : Validation → Text → Dict Value → Result ImportError (Dict Value)
unfolding is_path validate_path_exists
check_paths v yaml [] = ok []
check_paths v yaml ((k, x) ∷ model) =
    let rest = check_paths v yaml model in
    (if is_path k then validate_path_exists v yaml x else ok x) >>= λ y.
    rest >>= λ fields. ok ((k, y) ∷ fields)

-- The validator `test_config_must_exist`.
unfoldable pub test_config_must_exist : List (Dict Value) → List (Dict Value) → Bool
unfolding same_value
test_config_must_exist configs tests =
    all (λ t. any (λ c. same_value (config_of_entry c) (config_of_entry t)) configs) tests

-- What `m.dict()` has.
pub record Imported : Type 0 where
  pub yaml : Text
  pub configs : List (Dict Value)
  pub tests : List (Dict Value)

-- `DirectedTestsYaml(…)` with its validators.
unfoldable pub directed_tests_yaml :
    Validation → Text → List (Dict Value) → List (Dict Value) → Result ImportError Imported
unfolding model_fields model_of check_paths test_config_must_exist map_ok
directed_tests_yaml v yaml configs tests = do
  guard (v.exists yaml) exit_1
  config_models ← map_ok (model_of (v.validated d_config) (model_fields d_config)) configs
  test_models ← map_ok (model_of (v.validated d_test) (model_fields d_test)) tests
  guard (test_config_must_exist config_models test_models) exit_1
  checked_configs ← map_ok (check_paths v yaml) config_models
  checked_tests ← map_ok (check_paths v yaml) test_models
  ok (record { yaml = yaml; configs = checked_configs; tests = checked_tests })

-- `import_model` on the path of the file and the decoded list.
unfoldable pub import_model : Validation → Text → List (Dict Value) → Result ImportError Imported
unfolding is_config with_config directed_tests_yaml map_ok
import_model v directed_test_yaml yaml_data = do
  tests ←
      map_ok (with_config (select is_config yaml_data)) (select (λ i. not (is_config i)) yaml_data)
  directed_tests_yaml v directed_test_yaml (select is_config yaml_data) tests
