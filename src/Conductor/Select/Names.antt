-- ===== src/Conductor/Select/Names.antt =====
-- The names of assertions are taken apart as they were put together.
use emucpu.Prelude.{
  ℕ, Bool, true, false, not, ◌&&◌, ◌==◌, [], ◌∷◌, ◌++◌, all, drop, length, none, some, ok, arith,
  ◌≡◌, refl, sym, ap, ◌∙◌,
}
use emucpu.Prelude.Text.{Text, codes, show_nat, starts_with}
use emucpu.Requirements.Semver.{is_digit, value}
use emucpu.Requirements.Semver.Forms.{IsNumber}
use emucpu.TestEntry.RoundTrip.{show_nat-IsNumber, value-show_nat}
use emucpu.Conductor.Prove.{digits_value}
use emucpu.Conductor.Select.{cut, second_part, step_parts, step_number, split_step, preproc_name}

abbrev pub is_not : ℕ → ℕ → Bool
is_not sep c = not (c == sep)

cut-none : (sep : ℕ) (s : Text) → all (is_not sep) s ≡ true → cut sep s ≡ (s, none)
unfolding cut
cut-none sep [] h = refl
cut-none sep (c ∷ s) h = ground (arith, cut-none sep s)

cut-append :
    (sep : ℕ) (a s : Text) → all (is_not sep) a ≡ true → cut sep (a ++ (sep ∷ s)) ≡ (a, some s)
unfolding cut
cut-append sep [] s h = ground arith
cut-append sep (c ∷ a) s h = ground (arith, cut-append sep a s)

all-append : (p : ℕ → Bool) (a b : Text) → all p (a ++ b) ≡ (all p a && all p b)
all-append p [] b = refl
all-append p (c ∷ a) b = ground (arith, all-append p a b)

drop-append : (a s : Text) → drop (length a) (a ++ s) ≡ s
drop-append [] s = refl
drop-append (c ∷ a) s = drop-append a s

digits_are_not :
    (sep : ℕ) (s : Text) → is_digit sep ≡ false → all is_digit s ≡ true → all (is_not sep) s ≡ true
unfolding is_digit
digits_are_not sep [] h d = refl
digits_are_not sep (c ∷ s) h d = ground (arith, digits_are_not sep s h)

number_digits : (s : Text) → IsNumber s → all is_digit s ≡ true
number_digits [] h = absurd h
number_digits (c ∷ s) h = h

digits_value_number : (s : Text) → IsNumber s → digits_value s ≡ some (value s)
unfolding digits_value
digits_value_number [] h = absurd h
digits_value_number (c ∷ s) h = rw h refl

digits_value-show_nat : (n : ℕ) → digits_value (show_nat n) ≡ some n
digits_value-show_nat n =
    digits_value_number (show_nat n) (show_nat-IsNumber n) ∙ ap some (value-show_nat n)

show_nat-is_not : (sep n : ℕ) → is_digit sep ≡ false → all (is_not sep) (show_nat n) ≡ true
show_nat-is_not sep n h =
    digits_are_not sep (show_nat n) h (number_digits (show_nat n) (show_nat-IsNumber n))

split_step_numbered :
    (n : ℕ) (rest : Text)
    → split_step (codes "Step" ++ (show_nat n ++ (b'_' ∷ rest))) ≡ ok (n, rest)
unfolding split_step step_parts step_number is_digit
split_step_numbered n rest =
    let apart : cut b'_' (codes "Step" ++ (show_nat n ++ (b'_' ∷ rest)))
        ≡ (codes "Step" ++ show_nat n, some rest) =
      cut-append b'_' (codes "Step" ++ show_nat n) rest (show_nat-is_not b'_' n refl) in
    ap step_parts apart ∙ rw (step_parts, step_number, digits_value-show_nat n) refl

second_part-append :
    (before part : Text)
    → all (is_not b'$') before ≡ true
    → all (is_not b'$') part ≡ true
    → second_part (before ++ (b'$' ∷ part)) ≡ ok part
unfolding second_part
second_part-append before part h k =
    rw (second_part, cut-append b'$' before part h, cut-none b'$' part k) refl

-- An assertion's name with a `$`, five characters, `Step`, a number, `_` and the property's name
-- behind it is taken for that property of that step, whatever stands before the `$`.
pub preproc_name_numbered :
    (before five rest : Text) (n : ℕ)
    → all (is_not b'$') before ≡ true
    → all (is_not b'$') five ≡ true
    → length five ≡ 5
    → all (is_not b'$') rest ≡ true
    → preproc_name (before ++ (b'$' ∷ (five ++ (codes "Step" ++ (show_nat n ++ (b'_' ∷ rest))))))
      ≡ ok (n, rest)
unfolding preproc_name second_part is_digit starts_with
preproc_name_numbered before five rest n h f l r =
    let first = codes "Step" ++ (show_nat n ++ (b'_' ∷ rest)) in
    let tail : all (is_not b'$') (show_nat n ++ (b'_' ∷ rest)) ≡ true =
      all-append (is_not b'$') (show_nat n) (b'_' ∷ rest)
      ∙ ap (λ x. x && all (is_not b'$') rest) (show_nat-is_not b'$' n refl)
      ∙ r in
    let whole : all (is_not b'$') (five ++ first) ≡ true =
      all-append (is_not b'$') five first ∙ ap (λ x. x && all (is_not b'$') first) f ∙ tail in
    let dropped : drop 5 (five ++ first) ≡ first =
      ap (λ m. drop m (five ++ first)) (sym l) ∙ drop-append five first in
    rw
      (
        preproc_name,
        second_part-append before (five ++ first) h whole,
        dropped,
        split_step_numbered n rest,
      )
      refl
