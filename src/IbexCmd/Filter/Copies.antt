-- ===== src/IbexCmd/Filter/Copies.antt =====
-- How often `filter_tests_by_config` lists a test.
use emucpu.Prelude.{
  ℕ, suc, Bool, true, false, if◌then◌else◌, List, [], ◌∷◌, ◌++◌, Option, none, some, ok, raise,
  bind-eq-ok, all, All, select, replicate, length, arith, ◌≡◌, refl, ◌∙◌,
}
use mathlib.Core.List.{append-nil, append_assoc}
use emucpu.Prelude.Dict.{Dict, lookup}
use emucpu.Prelude.Text.{Text, codes}
use emucpu.IbexConfig.Fields.{Config}
use emucpu.IbexConfig.Value.{Value, Entries, mapping, entry, end, entries}
use emucpu.IbexCmd.Filter.{
  TestEntry, param_matches, add_for_params, add_with_params, add_test, filter_from,
  filter_tests_by_config,
}

-- The parameter is known, and the configuration's value is among those that the test lists.
abbrev pub is_match : Config → Text × Value → Bool
is_match cfg (p, v) = elim (param_matches cfg p v) [ ok b ↦ b | raise e ↦ false ]

-- The parameters that match before the first that does not.
abbrev pub leading_matches : Config → Dict Value → ℕ
leading_matches cfg [] = 0
leading_matches cfg (e ∷ items) = if is_match cfg e then suc (leading_matches cfg items) else 0

abbrev pub params_of : TestEntry → Option Value
params_of test = lookup (codes "rtl_params") test

abbrev pub copies_at : Config → Option Value → ℕ
copies_at cfg none = 1
copies_at cfg (some (mapping d)) = leading_matches cfg (entries d)
copies_at cfg (some _) = 0

-- The test has no parameters, or each of them matches.
abbrev pub compatible_at : Config → Option Value → Bool
compatible_at cfg none = true
compatible_at cfg (some (mapping d)) = all (is_match cfg) (entries d)
compatible_at cfg (some _) = false

abbrev pub compatible : Config → TestEntry → Bool
compatible cfg test = compatible_at cfg (params_of test)

-- The dictionary of parameters, if there is one, has one entry.
abbrev pub OneParamAt : Option Value → Type 0
OneParamAt none = Unit
OneParamAt (some (mapping (entry p v end))) = Unit
OneParamAt (some _) = ⊥

snoc-replicate {ℓ} :
    {A : Type ℓ} (n : ℕ) (xs : List A) (a : A)
    → (xs ++ a ∷ []) ++ replicate n a ≡ xs ++ replicate (suc n) a
snoc-replicate n xs a = append_assoc xs (a ∷ []) (replicate n a)

add_for_params-replicate :
    (cfg : Config) (test : TestEntry) (items : Dict Value) (filtered : List TestEntry)
    {r : List TestEntry}
    → add_for_params cfg test items filtered ≡ ok r
    → r ≡ filtered ++ replicate (leading_matches cfg items) test
unfolding add_for_params
add_for_params-replicate cfg test [] filtered h = ground (arith, append-nil filtered)
add_for_params-replicate cfg test ((p, v) ∷ items) filtered {r} h = ground (
  arith,
  add_for_params-replicate cfg test items (filtered ++ test ∷ []) {r = r},
  snoc-replicate (leading_matches cfg items) filtered test,
  append-nil filtered,
)

add_with_params-replicate :
    (cfg : Config) (test : TestEntry) (filtered : List TestEntry) (o : Option Value)
    {r : List TestEntry}
    → add_with_params cfg test filtered o ≡ ok r
    → r ≡ filtered ++ replicate (copies_at cfg o) test
unfolding add_with_params
add_with_params-replicate cfg test filtered none h = ground arith
add_with_params-replicate cfg test filtered (some (mapping d)) h =
    add_for_params-replicate cfg test (entries d) filtered h
add_with_params-replicate cfg test filtered (some _) h = cc

add_test-replicate :
    (cfg : Config) (test : TestEntry) (filtered : List TestEntry) {r : List TestEntry}
    → add_test cfg test filtered ≡ ok r
    → r ≡ filtered ++ replicate (copies_at cfg (params_of test)) test
unfolding add_test
add_test-replicate cfg test filtered h =
    add_with_params-replicate cfg test filtered (params_of test) h

abbrev pub expand : Config → List TestEntry → List TestEntry
expand cfg [] = []
expand cfg (test ∷ tests) = replicate (copies_at cfg (params_of test)) test ++ expand cfg tests

filter_from-expand :
    (cfg : Config) (tests filtered : List TestEntry) {r : List TestEntry}
    → filter_from cfg tests filtered ≡ ok r
    → r ≡ filtered ++ expand cfg tests
unfolding filter_from
filter_from-expand cfg [] filtered h = ground (arith, append-nil filtered)
filter_from-expand cfg (test ∷ tests) filtered h =
    let (more, added, rest) =
      bind-eq-ok (add_test cfg test filtered) (λ m. filter_from cfg tests m) h in
    filter_from-expand cfg tests more rest
    ∙ rw (add_test-replicate cfg test filtered added, append_assoc)

-- Whenever the selection returns, it lists each test as often as parameters of it match before
-- the first that does not, one time if it has none, in the order of the test list.
pub filter-expand :
    (cfg : Config) (tests : List TestEntry) {r : List TestEntry}
    → filter_tests_by_config cfg tests ≡ ok r
    → r ≡ expand cfg tests
unfolding filter_tests_by_config
filter-expand cfg tests = filter_from-expand cfg tests []

copies-OneParam :
    (cfg : Config) (o : Option Value)
    → OneParamAt o
    → copies_at cfg o ≡ (if compatible_at cfg o then 1 else 0)
unfolding entries
copies-OneParam cfg none u = refl
copies-OneParam cfg (some (mapping (entry p v end))) u = ground arith
copies-OneParam cfg (some _) u = absurd u

expand-select :
    (cfg : Config) (tests : List TestEntry)
    → All (λ t. OneParamAt (params_of t)) tests
    → expand cfg tests ≡ select (compatible cfg) tests
expand-select cfg [] u = refl
expand-select cfg (test ∷ tests) (u, us) =
    ground (arith, copies-OneParam cfg (params_of test) u, expand-select cfg tests us)

-- On tests that have no parameters or exactly one, the selection is what its documentation says:
-- the compatible tests, each once and in order.
pub filter-select :
    (cfg : Config) (tests : List TestEntry) {r : List TestEntry}
    → All (λ t. OneParamAt (params_of t)) tests
    → filter_tests_by_config cfg tests ≡ ok r
    → r ≡ select (compatible cfg) tests
filter-select cfg tests u h = filter-expand cfg tests h ∙ expand-select cfg tests u

add_for_params-all :
    (cfg : Config) (test : TestEntry) (items : Dict Value) (filtered : List TestEntry)
    → all (is_match cfg) items ≡ true
    → add_for_params cfg test items filtered ≡ ok (filtered ++ replicate (length items) test)
unfolding add_for_params
add_for_params-all cfg test [] filtered h = rw append-nil
add_for_params-all cfg test ((p, v) ∷ items) filtered h = ground (
  arith,
  add_for_params-all cfg test items (filtered ++ test ∷ []),
  snoc-replicate (length items) filtered test,
)

-- A test that has `rtl_params` and is compatible is listed once for each parameter: with two or
-- more it is duplicated, and with an empty dictionary it is dropped.
pub filter_duplicates :
    (cfg : Config) (test : TestEntry) {d : Entries}
    → params_of test ≡ some (mapping d)
    → compatible cfg test ≡ true
    → filter_tests_by_config cfg (test ∷ []) ≡ ok (replicate (length (entries d)) test)
unfolding filter_tests_by_config
filter_duplicates cfg test {d} h c = ground (arith, add_for_params-all cfg test (entries d) [])
