-- ===== src/Conductor/Steps/Grouping.antt =====
-- `group_by_step` puts every property under its step.
use emucpu.Prelude.{
  ℕ, zero, suc, ◌+◌, ◌≤◌, ◌<◌, max, ◌==◌, if◌then◌else◌, List, [], ◌∷◌, ◌++◌, length, length-append,
  arith, ◌≡◌, refl, Option, none, some,
}
use mathlib.Core.List.{append-nil, append_assoc}
use emucpu.Prelude.Text.{Text}
use emucpu.Conductor.Steps.{grow, append_at, group_from, group_by_step}

abbrev pub names_at : List (List Text) → ℕ → List Text
names_at [] i = []
names_at (names ∷ by_step) zero = names
names_at (names ∷ by_step) (suc i) = names_at by_step i

-- The names of a step, in the order given.
abbrev pub of_step : ℕ → List (ℕ × Text) → List Text
of_step i [] = []
of_step i ((step, name) ∷ names) = if step == i then name ∷ of_step i names else of_step i names

names_at-snoc :
    (by_step : List (List Text)) (i : ℕ) → names_at (by_step ++ [] ∷ []) i ≡ names_at by_step i
names_at-snoc [] zero = refl
names_at-snoc [] (suc i) = refl
names_at-snoc (n ∷ by_step) zero = refl
names_at-snoc (n ∷ by_step) (suc i) = names_at-snoc by_step i

names_at-grow :
    (fuel step : ℕ) (by_step : List (List Text)) (i : ℕ)
    → names_at (grow fuel step by_step) i ≡ names_at by_step i
unfolding grow
names_at-grow zero step by_step i = refl
names_at-grow (suc fuel) step by_step i =
    ground (arith, names_at-grow fuel step (by_step ++ [] ∷ []) i, names_at-snoc by_step i)

length-grow :
    (fuel step : ℕ) (by_step : List (List Text))
    → suc step ≤ length by_step + fuel
    → length (grow fuel step by_step) ≡ max (length by_step) (suc step)
unfolding grow
length-grow zero step by_step h = omega arith
length-grow (suc fuel) step by_step h =
    ground (arith, length-grow fuel step (by_step ++ [] ∷ []), length-append by_step ([] ∷ []))

names_at-append_at :
    (step : ℕ) (name : Text) (by_step : List (List Text)) (i : ℕ)
    → step < length by_step
    → names_at (append_at step name by_step) i ≡ names_at by_step i ++ of_step i ((step, name) ∷ [])
unfolding append_at
names_at-append_at step name [] i h = absurd (omega arith)
names_at-append_at zero name (n ∷ by_step) zero h = refl
names_at-append_at zero name (n ∷ by_step) (suc i) h =
    ground (arith, append-nil (names_at by_step i))
names_at-append_at (suc step) name (n ∷ by_step) zero h = ground (arith, append-nil n)
names_at-append_at (suc step) name (n ∷ by_step) (suc i) h =
    ground (arith, names_at-append_at step name by_step i)

length-append_at :
    (step : ℕ) (name : Text) (by_step : List (List Text))
    → length (append_at step name by_step) ≡ length by_step
unfolding append_at
length-append_at step name [] = refl
length-append_at zero name (n ∷ by_step) = refl
length-append_at (suc step) name (n ∷ by_step) = omega (arith, length-append_at step name by_step)

-- One more than the greatest step.
abbrev pub steps_end : List (ℕ × Text) → ℕ
steps_end [] = 0
steps_end ((step, name) ∷ names) = max (suc step) (steps_end names)

group_from-lem :
    (names : List (ℕ × Text)) (by_step : List (List Text)) (i : ℕ)
    → (names_at (group_from names by_step) i ≡ names_at by_step i ++ of_step i names)
      × (length (group_from names by_step) ≡ max (length by_step) (steps_end names))
unfolding group_from
group_from-lem [] by_step i = (rw append-nil, omega arith)
group_from-lem ((step, name) ∷ names) by_step i =
    let grown = grow (suc step) step by_step in
    let long = length-grow (suc step) step by_step (omega arith) in
    ground (
      arith,
      group_from-lem names (append_at step name grown) i,
      names_at-append_at step name grown i,
      names_at-grow (suc step) step by_step i,
      length-append_at step name grown,
      long,
      append_assoc (names_at by_step i) (name ∷ []) (of_step i names),
      append-nil (names_at by_step i),
    )

abbrev pub end_of : Option ℕ → ℕ
end_of none = 0
end_of (some most) = suc most

-- In the result of `group_by_step` the list at each step holds exactly the names of that step, in
-- the order given, and there is a list for every step up to the greatest, and up to `max` if it is
-- given, and no further.
pub group_by_step-of_step :
    (names : List (ℕ × Text)) (most : Option ℕ) (i : ℕ)
    → (names_at (group_by_step names most) i ≡ of_step i names)
      × (length (group_by_step names most) ≡ max (steps_end names) (end_of most))
unfolding group_by_step
group_by_step-of_step names none i = ground (arith, group_from-lem names [] i)
group_by_step-of_step names (some most) i = ground (
  arith,
  group_from-lem names [] i,
  names_at-grow (suc most) most (group_from names []) i,
  length-grow (suc most) most (group_from names []),
)
