-- ===== src/TestEntry/RoundTrip.antt =====
-- A TEST.SEED text that is written is read back.
use emucpu.Prelude.{
  ℕ, zero, suc, ◌+◌, ◌/◌, ◌%◌, ◌<◌, true, [], ◌∷◌, ◌++◌, ok, all, arith, ◌≡◌, ◌≢◌, refl,
}
use mathlib.Core.List.{append_assoc}
use emucpu.Prelude.Text.{Text, digits_onto, show_nat}
use emucpu.LogCheck.Modes.{TestRunResult}
use emucpu.LogCheck.Collect.{test_dot_seed}
use emucpu.Requirements.Semver.{is_digit, literal, value, value_onto, is_at_end}
use emucpu.Requirements.Semver.Forms.{IsNumber, span-append, some_digits-all}
use emucpu.TestEntry.{is_not_dot, read_test_dot_seed}

value_onto-digits_onto :
    (fuel n : ℕ) (out : Text) → n < fuel → value_onto 0 (digits_onto fuel n out) ≡ value_onto n out
unfolding value_onto digits_onto
value_onto-digits_onto zero n out h = absurd (omega arith)
value_onto-digits_onto (suc fuel) n out h =
    ground (arith, value_onto-digits_onto fuel (n / 10) ((48 + n % 10) ∷ out))

digit-is_digit : (n : ℕ) → is_digit (48 + n % 10) ≡ true
unfolding is_digit
digit-is_digit n = ground arith

all-digits_onto :
    (fuel n : ℕ) (out : Text)
    → all is_digit out ≡ true
    → all is_digit (digits_onto fuel n out) ≡ true
unfolding digits_onto
all-digits_onto zero n out h = h
all-digits_onto (suc fuel) n out h =
    ground (arith, all-digits_onto fuel (n / 10) ((48 + n % 10) ∷ out), digit-is_digit n)

digits_onto-cons : (fuel n c : ℕ) (out : Text) → digits_onto fuel n (c ∷ out) ≢ []
unfolding digits_onto
digits_onto-cons zero n c out = λ e. cc
digits_onto-cons (suc fuel) n c out =
    ground (arith, digits_onto-cons fuel (n / 10) (48 + n % 10) (c ∷ out))

digits_onto-ne_nil : (fuel n : ℕ) → digits_onto (suc fuel) n [] ≢ []
unfolding digits_onto
digits_onto-ne_nil fuel n = ground (arith, digits_onto-cons fuel (n / 10) (48 + n % 10) [])

all-IsNumber : (s : Text) → s ≢ [] → all is_digit s ≡ true → IsNumber s
all-IsNumber [] n h = n refl
all-IsNumber (c ∷ s) n h = h

pub show_nat-IsNumber : (n : ℕ) → IsNumber (show_nat n)
unfolding show_nat
show_nat-IsNumber n =
    all-IsNumber (digits_onto (suc n) n []) (digits_onto-ne_nil n n)
      (all-digits_onto (suc n) n [] refl)

pub value-show_nat : (n : ℕ) → value (show_nat n) ≡ n
unfolding value show_nat value_onto
value-show_nat n = value_onto-digits_onto (suc n) n [] (omega arith)

pub read_written :
    (name : Text) (seed : ℕ)
    → name ≢ []
    → all is_not_dot name ≡ true
    → read_test_dot_seed (name ++ (b'.' ∷ show_nat seed)) ≡ ok (name, seed)
unfolding read_test_dot_seed literal is_at_end is_not_dot
read_written [] seed n h = absurd (n refl)
read_written (c ∷ name) seed n h =
    let before = span-append is_not_dot (c ∷ name) (b'.' ∷ show_nat seed) h refl in
    rw
      (
        read_test_dot_seed,
        before,
        some_digits-all (show_nat seed) (show_nat-IsNumber seed),
        value-show_nat seed,
      )
      refl

-- The TEST.SEED text of a result, as the summary of results writes it, is read back by
-- `read_test_dot_seed` as the test's name and seed, for every name that is not empty and has no dot.
pub read_test_dot_seed-test_dot_seed :
    (trr : TestRunResult)
    → trr.testname ≢ []
    → all is_not_dot trr.testname ≡ true
    → read_test_dot_seed (test_dot_seed trr) ≡ ok (trr.testname, trr.seed)
unfolding test_dot_seed
read_test_dot_seed-test_dot_seed trr n h =
    rw (append_assoc trr.testname (b'.' ∷ []) (show_nat trr.seed))
      (read_written trr.testname trr.seed n h)
