-- ===== src/DirectedTests/Merged.antt =====
-- What an import makes of the tests and the configurations.
use emucpu.Prelude.{
  true, not, select, List, [], ◌∷◌, All, Option, some, ok, guard, map_ok, map_ok-cons, bind-eq-ok,
  ◌≡◌, refl, sym, ◌∙◌,
}
use mathlib.Core.Path.{subst}
use mathlib.Core.List.{Mem}
use emucpu.Prelude.Text.{Text}
use emucpu.Prelude.Dict.{Dict, DistinctKeys, lookup, keys, mem_text}
use emucpu.IbexConfig.Value.{Value}
use emucpu.DirectedTests.{
  exit_1, same_value, is_config, config_of_entry, with_config, test_config_must_exist, Model,
  d_config, d_test, model_fields, is_path, Validation, model_of, check_paths, Imported,
  directed_tests_yaml, import_model,
}
use emucpu.DirectedTests.Models.{Pairs, IsPlaced, model_of_lem, check_paths_lem}
use emucpu.DirectedTests.Joined.{first_of, with_config-IsJoined}

-- What is imported as a model has the fields of the model, each with what is made of the value that
-- the source has for it. A path has become one beside the file, and exists.
abbrev pub IsRead : Validation → Text → Model → (Text → Option Value) → Dict Value → Type 0
IsRead v yaml model source out =
    (keys out ≡ model_fields model)
    × ((k : Text)
        → mem_text k (model_fields model) ≡ true
        → (x : Value) × (z : Value) × (y : Value) × (source k ≡ some x)
          × (v.validated model k x ≡ some z)
          × IsPlaced v yaml (is_path k) z y
          × (lookup k out ≡ some y))

model-IsRead :
    (v : Validation) (yaml : Text) (model : Model) (source : Text → Option Value)
    (i m out : Dict Value)
    → ((k : Text) → lookup k i ≡ source k)
    → model_of (v.validated model) (model_fields model) i ≡ ok m
    → check_paths v yaml m ≡ ok out
    → IsRead v yaml model source out
model-IsRead v yaml model source i m out agree made checked =
    let (order, values) = model_of_lem (v.validated model) (model_fields model) i made in
    let (kept, placed) = check_paths_lem v yaml m checked in
    (
      kept ∙ order,
      λ k there.
          let (x, z, found, valid, has) = values k there in
          let (y, set, ends) = placed k z has in (x, z, y, sym (agree k) ∙ found, valid, set, ends),
    )

configs-IsRead :
    (v : Validation) (yaml : Text) (configs models outs : List (Dict Value))
    → map_ok (model_of (v.validated d_config) (model_fields d_config)) configs ≡ ok models
    → map_ok (check_paths v yaml) models ≡ ok outs
    → Pairs (λ c out. IsRead v yaml d_config (λ k. lookup k c) out) configs outs
unfolding map_ok
configs-IsRead v yaml [] models [] made checked = tt
configs-IsRead v yaml [] models (out ∷ outs) made checked =
    let none_made : [] ≡ models = cc in
    let none_checked : map_ok (check_paths v yaml) [] ≡ ok (out ∷ outs) =
      rw (sym none_made) at checked in
    absurd cc
configs-IsRead v yaml (c ∷ configs) models outs made checked =
    let (m, ms, here, there, split) =
      map_ok-cons (model_of (v.validated d_config) (model_fields d_config)) c configs made in
    let (out, more, placed, others, outs_split) =
      map_ok-cons (check_paths v yaml) m ms (rw split at checked) in
    subst (Pairs (λ c out. IsRead v yaml d_config (λ k. lookup k c) out) (c ∷ configs))
      (sym outs_split)
      (
        model-IsRead v yaml d_config (λ k. lookup k c) c m out (λ k. refl) here placed,
        configs-IsRead v yaml configs ms more there others,
      )

-- A test is read from what it says, and then from what its configuration says.
abbrev pub IsTest : Validation → Text → List (Dict Value) → Dict Value → Dict Value → Type 0
IsTest v yaml configs t out =
    (c : Dict Value) × Mem c configs
    × (same_value (config_of_entry c) (config_of_entry t) ≡ true)
    × IsRead v yaml d_test (λ k. first_of (lookup k t) (lookup k c)) out

tests-IsTest :
    (v : Validation) (yaml : Text) (configs ts joined models outs : List (Dict Value))
    → All DistinctKeys ts
    → map_ok (with_config configs) ts ≡ ok joined
    → map_ok (model_of (v.validated d_test) (model_fields d_test)) joined ≡ ok models
    → map_ok (check_paths v yaml) models ≡ ok outs
    → Pairs (IsTest v yaml configs) ts outs
unfolding map_ok
tests-IsTest v yaml configs [] joined models [] distinct merged made checked = tt
tests-IsTest v yaml configs [] joined models (out ∷ outs) distinct merged made checked =
    let none_joined : [] ≡ joined = cc in
    let none_made : map_ok (model_of (v.validated d_test) (model_fields d_test)) [] ≡ ok models =
      rw (sym none_joined) at made in
    let no_models : [] ≡ models = cc in
    let none_checked : map_ok (check_paths v yaml) [] ≡ ok (out ∷ outs) =
      rw (sym no_models) at checked in
    absurd cc
tests-IsTest v yaml configs (t ∷ ts) joined models outs (distinct, all_distinct) merged made
      checked =
    let (j, js, joins, more_joined, joined_split) = map_ok-cons (with_config configs) t ts merged in
    let (m, ms, here, there, split) =
      map_ok-cons (model_of (v.validated d_test) (model_fields d_test)) j js
        (rw joined_split at made) in
    let (out, more, placed, others, outs_split) =
      map_ok-cons (check_paths v yaml) m ms (rw split at checked) in
    let (c, known, same, values) = with_config-IsJoined configs t distinct joins in
    subst (Pairs (IsTest v yaml configs) (t ∷ ts)) (sym outs_split) (
      (
        c,
        known,
        same,
        model-IsRead v yaml d_test (λ k. first_of (lookup k t) (lookup k c)) j m out values here
            placed,
      ),
      tests-IsTest v yaml configs ts js ms more all_distinct more_joined there others,
    )

-- What is imported of a list of entries: the configurations are those that name no test, and the
-- tests those that do, joined with one of the configurations.
abbrev pub AllJoined : Validation → Text → List (Dict Value) → Imported → Type 0
AllJoined v yaml yaml_data m =
    (m.yaml ≡ yaml)
    × Pairs (λ c out. IsRead v yaml d_config (λ k. lookup k c) out) (select is_config yaml_data)
        m.configs
    × Pairs (IsTest v yaml (select is_config yaml_data)) (select (λ i. not (is_config i)) yaml_data)
        m.tests

models-AllJoined :
    (v : Validation) (yaml : Text) (yaml_data joined : List (Dict Value)) {m : Imported}
    → All DistinctKeys (select (λ i. not (is_config i)) yaml_data)
    → map_ok (with_config (select is_config yaml_data)) (select (λ i. not (is_config i)) yaml_data)
      ≡ ok joined
    → directed_tests_yaml v yaml (select is_config yaml_data) joined ≡ ok m
    → AllJoined v yaml yaml_data m
unfolding directed_tests_yaml
models-AllJoined v yaml yaml_data joined {m} distinct merged e =
    let cs = select is_config yaml_data in
    let ts = select (λ i. not (is_config i)) yaml_data in
    let (u1, there, e1) = bind-eq-ok (guard (v.exists yaml) exit_1) _ e in
    let (cms, made, e2) =
      bind-eq-ok (map_ok (model_of (v.validated d_config) (model_fields d_config)) cs) _ e1 in
    let (tms, tests_made, e3) =
      bind-eq-ok (map_ok (model_of (v.validated d_test) (model_fields d_test)) joined) _ e2 in
    let (u2, named, e4) = bind-eq-ok (guard (test_config_must_exist cms tms) exit_1) _ e3 in
    let (couts, checked, e5) = bind-eq-ok (map_ok (check_paths v yaml) cms) _ e4 in
    let (touts, tests_checked, e6) = bind-eq-ok (map_ok (check_paths v yaml) tms) _ e5 in
    let whole : Imported = record { yaml = yaml; configs = couts; tests = touts } in
    let same : whole ≡ m = cc in
    subst (AllJoined v yaml yaml_data) same (
      refl,
      configs-IsRead v yaml cs cms couts made checked,
      tests-IsTest v yaml cs ts joined tms touts distinct merged tests_made tests_checked,
    )

-- When a list of entries, of which those that name a test have distinct keys, is imported, the
-- configurations are made of its entries that name no test, and the tests of those that do, in
-- their order. Each has the fields of its class and no others: a field of a test is what the test
-- says or, where it says nothing, what a configuration says that has the name given in the test. Each
-- value is what validation makes of it, and a path is one beside the file that exists.
pub import_model-AllJoined :
    (v : Validation) (yaml : Text) (yaml_data : List (Dict Value)) (m : Imported)
    → All DistinctKeys (select (λ i. not (is_config i)) yaml_data)
    → import_model v yaml yaml_data ≡ ok m
    → AllJoined v yaml yaml_data m
unfolding import_model
import_model-AllJoined v yaml yaml_data m distinct e =
    let (joined, merged, read) =
      bind-eq-ok
        (map_ok (with_config (select is_config yaml_data))
          (select (λ i. not (is_config i)) yaml_data))
        (directed_tests_yaml v yaml (select is_config yaml_data)) e in
    models-AllJoined v yaml yaml_data joined distinct merged read
