-- ===== src/Metadata/Runs/Listed.antt =====
-- The lists that are printed name the runs that have been made.
use emucpu.Prelude.{
  ℕ, zero, suc, ◌+◌, Bool, false, if◌then◌else◌, List, [], ◌∷◌, ◌++◌, map, select, select-append,
  Option, none, some, Result, ok, raise, ◌>>=◌, bind-eq-ok, ◌≡◌, refl, sym, ap, ◌∙◌, if_ind,
}
use mathlib.Core.List.{map-append}
use emucpu.Prelude.Int.{ℤ, pos, negsuc}
use emucpu.Prelude.Text.{Text}
use emucpu.Prelude.Dict.{Dict}
use emucpu.IbexConfig.Value.{Value}
use emucpu.IbexCmd.Filter.{TestEntry}
use emucpu.Metadata.{TestType, riscvdv, directed, TestCount}
use emucpu.Metadata.Runs.{
  RunsError, Regression, TestOptions, NewRun, test_options, discrete_debug, directed_data_of,
  tds_str, new_run, complete_run, Exported, and_then, exported_run, export_seeds, export_tests,
  create, export_checked, same_type, typed_seeds, tds_list,
}

-- The TEST.SEED texts of the runs of a type.
abbrev pub texts_of : TestType → List NewRun → List Text
texts_of t runs = map (λ r. r.testdotseed) (select (λ r. same_type r.testtype t) runs)

texts_of-append :
    (t : TestType) (a b : List NewRun) → texts_of t (a ++ b) ≡ texts_of t a ++ texts_of t b
texts_of-append t a b =
    rw (select-append (λ r. same_type r.testtype t) a b) (
      map-append _ (select (λ r. same_type r.testtype t) a)
        (select (λ r. same_type r.testtype t) b))

texts_of-joined :
    (t : TestType) (a b : List NewRun) {whole : List NewRun} {as_a as_b : List Text}
    → whole ≡ a ++ b
    → texts_of t a ≡ as_a
    → texts_of t b ≡ as_b
    → texts_of t whole ≡ as_a ++ as_b
texts_of-joined t a b {as_a} same e f =
    ap (texts_of t) same
    ∙ texts_of-append t a b
    ∙ ap (λ l. l ++ texts_of t b) e
    ∙ ap (λ l. as_a ++ l) f

and_then-eq-none :
    (x y : Exported)
    → (and_then x y).1 ≡ none
    → (x.1 ≡ none) × (y.1 ≡ none) × ((and_then x y).0 ≡ x.0 ++ y.0)
unfolding and_then
and_then-eq-none (a, none) (b, f) e = (refl, e, refl)
and_then-eq-none (a, some f) y e = absurd cc

-- Completing a run leaves its type and its text.
complete_run-keeps :
    (md : Regression) (obj : TestEntry) (t : TestType) (trr : NewRun) {out : NewRun}
    → complete_run md obj t trr ≡ ok out
    → (out.testtype ≡ trr.testtype) × (out.testdotseed ≡ trr.testdotseed)
unfolding complete_run
complete_run-keeps md obj riscvdv trr {out} e =
    let last : TestOptions → Option Bool → Result RunsError NewRun = λ opts discrete.
      ok (record trr { options = some opts; is_discrete_debug_module = discrete }) in
    let next : TestOptions → Result RunsError NewRun =
      λ opts. discrete_debug none opts.sim_opts >>= last opts in
    let (opts, _, went) = bind-eq-ok (test_options obj) next e in
    let (discrete, _, done) = bind-eq-ok (discrete_debug none opts.sim_opts) (last opts) went in
    let same : record trr { options = some opts; is_discrete_debug_module = discrete } ≡ out = cc in
    (rw (← same) refl, rw (← same) refl)
complete_run-keeps md obj directed trr {out} e =
    let next : Dict Value → Result RunsError NewRun =
      λ found. ok (record trr { directed_data = some found }) in
    let (found, _, done) = bind-eq-ok (directed_data_of trr.testname md.directed_tests) next e in
    let same : record trr { directed_data = some found } ≡ out = cc in
    (rw (← same) refl, rw (← same) refl)

exported_run-texts :
    (t type : TestType) (tds : Text) (x : Result RunsError NewRun)
    → ((out : NewRun) → x ≡ ok out → (out.testtype ≡ type) × (out.testdotseed ≡ tds))
    → (exported_run x).1 ≡ none
    → texts_of t (exported_run x).0 ≡ (if same_type type t then tds ∷ [] else [])
exported_run-texts t type tds (ok r) h went =
    let (e, f) = h r refl in
    rw (← e, ← f)
      (if_ind
        (λ l.
          map (λ r. r.testdotseed) l ≡ (if same_type r.testtype t then r.testdotseed ∷ [] else []))
        (same_type r.testtype t) (λ b. rw b refl) (λ b. rw b refl))
exported_run-texts t type tds (raise f) h went = absurd cc

new_run-names :
    (md : Regression) (c : TestCount) (testseed : ℕ)
    → ((new_run md c testseed).testtype ≡ c.testtype)
      × ((new_run md c testseed).testdotseed ≡ tds_str c.test testseed)
unfolding new_run
new_run-names md c testseed = (refl, refl)

typed_seeds-suc :
    (t : TestType) (c : TestCount) (testseed count : ℕ)
    → typed_seeds t c testseed (suc count)
      ≡ (if same_type c.testtype t then tds_str c.test testseed ∷ [] else [])
        ++ typed_seeds t c (testseed + 1) count
unfolding typed_seeds
typed_seeds-suc t c testseed count =
    if_ind
      (λ l.
        l
        ≡ (if same_type c.testtype t then tds_str c.test testseed ∷ [] else [])
          ++ typed_seeds t c (testseed + 1) count)
      (same_type c.testtype t) (λ b. rw b refl) (λ b. rw b refl)

export_seeds-texts :
    (t : TestType) (md : Regression) (c : TestCount) (obj : TestEntry) (testseed count : ℕ)
    → (export_seeds md c obj testseed count).1 ≡ none
    → texts_of t (export_seeds md c obj testseed count).0 ≡ typed_seeds t c testseed count
unfolding export_seeds
export_seeds-texts t md c obj testseed zero went = unfold typed_seeds in refl
export_seeds-texts t md c obj testseed (suc count) went =
    let trr = new_run md c testseed in
    let here = complete_run md obj c.testtype trr in
    let later = export_seeds md c obj (testseed + 1) count in
    let (x, y, same) = and_then-eq-none (exported_run here) later went in
    let names : (out : NewRun)
        → here ≡ ok out
        → (out.testtype ≡ c.testtype) × (out.testdotseed ≡ tds_str c.test testseed) =
      λ out e.
        let (a, b) = complete_run-keeps md obj c.testtype trr e in
        let (f, g) = new_run-names md c testseed in (a ∙ f, b ∙ g) in
    let first = exported_run-texts t c.testtype (tds_str c.test testseed) here names x in
    let others = export_seeds-texts t md c obj (testseed + 1) count y in
    texts_of-joined t (exported_run here).0 later.0 same first others
    ∙ sym (typed_seeds-suc t c testseed count)

export_tests-texts :
    (t : TestType) (md : Regression) (tests : List (TestCount × TestEntry))
    → (export_tests md tests).1 ≡ none
    → texts_of t (export_tests md tests).0 ≡ tds_list t md.seed (map (λ e. e.0) tests)
unfolding export_tests tds_list
export_tests-texts t md [] went = refl
export_tests-texts t md ((c, obj) ∷ tests) went =
    let here = export_seeds md c obj md.seed c.count in
    let (x, y, same) = and_then-eq-none here (export_tests md tests) went in
    texts_of-joined t here.0 (export_tests md tests).0 same
      (export_seeds-texts t md c obj md.seed c.count x) (export_tests-texts t md tests y)

export_checked-texts :
    (t : TestType) (md : Regression) (tests : List (TestCount × TestEntry)) (seed : ℕ)
    {runs : List NewRun}
    → export_checked md tests (ok seed) ≡ (runs, none)
    → texts_of t runs ≡ tds_list t seed (map (λ e. e.0) tests)
export_checked-texts t md [] seed e = absurd cc
export_checked-texts t md (c ∷ tests) seed {runs} e =
    let md' = record md { seed = seed } in
    let same : (export_tests md' (c ∷ tests)).0 ≡ runs = cc in
    rw (← same) (export_tests-texts t md' (c ∷ tests) cc)

-- When the metadata of a regression has been created without an error, the list that is printed for
-- a type of test holds the TEST.SEED texts of the runs of that type, each as often as it has been
-- made, and in the same order. There is no metadata before.
pub create-tds_list :
    (t : TestType) (iterations : Option ℤ) (seed : ℕ) (md : Regression)
    (tests : List (TestCount × TestEntry)) {runs : List NewRun}
    → create false iterations (pos seed) md tests ≡ (runs, none)
    → map (λ r. r.testdotseed) (select (λ r. same_type r.testtype t) runs)
      ≡ tds_list t seed (map (λ e. e.0) tests)
unfolding create
create-tds_list t none seed md tests e = export_checked-texts t md tests seed e
create-tds_list t (some (pos zero)) seed md tests e = absurd cc
create-tds_list t (some (pos (suc n))) seed md tests e = export_checked-texts t md tests seed e
create-tds_list t (some (negsuc n)) seed md tests e = absurd cc
