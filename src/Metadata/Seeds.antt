-- ===== src/Metadata/Seeds.antt =====
-- The TEST.SEED texts of a regression, read back, and the tests that are counted.
use emucpu.Prelude.{
  ℕ, zero, suc, ◌+◌, true, List, [], ◌∷◌, ◌++◌, Result, ok, All, all, map_ok, arith, bind-eq-ok,
  ◌≡◌, ◌≢◌, refl,
}
use mathlib.Core.List.{append_assoc}
use emucpu.Prelude.Text.{Text, show_nat}
use emucpu.TestEntry.{is_not_dot, read_test_dot_seed}
use emucpu.TestEntry.RoundTrip.{read_written}
use emucpu.Metadata.{TestCount, seeds_from, tests_and_seeds}

-- A test's name that TEST.SEED texts can carry.
abbrev pub IsPlain : TestCount → Type 0
IsPlain c = (c.test ≢ []) × (all is_not_dot c.test ≡ true)

abbrev pub numbered_runs : Text → ℕ → ℕ → List (Text × ℕ)
numbered_runs test seed zero = []
numbered_runs test seed (suc count) = (test, seed) ∷ numbered_runs test (seed + 1) count

-- Each test with the seeds from the regression's on, as many as it has iterations.
abbrev pub all_runs : ℕ → List TestCount → List (Text × ℕ)
all_runs seed [] = []
all_runs seed (c ∷ counts) = numbered_runs c.test seed c.count ++ all_runs seed counts

map_ok-append {ℓ κ μ} :
    {E : Type ℓ} {A : Type κ} {B : Type μ} (f : A → Result E B) (xs ys : List A) {us vs : List B}
    → map_ok f xs ≡ ok us
    → map_ok f ys ≡ ok vs
    → map_ok f (xs ++ ys) ≡ ok (us ++ vs)
unfolding map_ok
map_ok-append f [] ys h e = ground arith
map_ok-append f (x ∷ xs) ys h e =
    let (b, fx, more) = bind-eq-ok (f x) _ h in
    let (bs, fxs, same) = bind-eq-ok (map_ok f xs) _ more in
    ground (arith, map_ok-append f xs ys {us = bs} fxs e)

read-seeds_from :
    (test : Text) (seed count : ℕ)
    → test ≢ []
    → all is_not_dot test ≡ true
    → map_ok read_test_dot_seed (seeds_from test seed count) ≡ ok (numbered_runs test seed count)
unfolding seeds_from map_ok
read-seeds_from test seed zero n h = refl
read-seeds_from test seed (suc count) n h =
    rw
      (
        append_assoc test (b'.' ∷ []) (show_nat seed),
        read_written test seed n h,
        read-seeds_from test (seed + 1) count n h,
      )
      refl

-- The TEST.SEED texts of a regression, read back by the scripts that run each of them, are each
-- test with the seeds from the regression's own on, as many as its iterations, if no name of a
-- test is empty or has a dot.
pub tests_and_seeds-all_runs :
    (seed : ℕ) (counts : List TestCount)
    → All IsPlain counts
    → map_ok read_test_dot_seed (tests_and_seeds seed counts) ≡ ok (all_runs seed counts)
unfolding tests_and_seeds map_ok
tests_and_seeds-all_runs seed [] h = refl
tests_and_seeds-all_runs seed (c ∷ counts) ((n, d), h) =
    map_ok-append read_test_dot_seed (seeds_from c.test seed c.count) (tests_and_seeds seed counts)
      (read-seeds_from c.test seed c.count n d) (tests_and_seeds-all_runs seed counts h)
