-- ===== src/Conductor/Select/Steps.antt =====
-- Every property that is wanted is listed under its step, among the skipped ones or the others.
use emucpu.Prelude.{
  ℕ, suc, ◌≤◌, Bool, not, ◌==◌, List, [], ◌∷◌, ◌++◌, select, length, some, arith, ◌≡◌, Bool-cases,
  inl, inr,
}
use mathlib.Core.List.{Perm, perm_middle}
use mathlib.Core.List.Perm
use emucpu.Prelude.Text.{Text}
use emucpu.Conductor.Steps.Grouping.{names_at, of_step, steps_end, group_by_step-of_step}
use emucpu.Conductor.Select.{is_skipped, selection_of}

of_step-select :
    (p : ℕ × Text → Bool) (i : ℕ) (names : List (ℕ × Text))
    → Perm
        (of_step i (select (λ n. not (p n)) names) ++ of_step i (select p names))
        (of_step i names)
of_step-select p i [] = Perm.rfl
of_step-select p i ((step, name) ∷ names) =
    let rest = of_step-select p i names in
    elim (Bool-cases (p (step, name))) [
      | inl taken ↦ elim (Bool-cases (step == i)) [
        | inl here ↦
            rw (taken, here)
              (Perm.trans
                (perm_middle (of_step i (select (λ n. not (p n)) names))
                  (of_step i (select p names)))
                (Perm.cons name rest))
        | inr elsewhere ↦ rw (taken, elsewhere) rest
      ]
      | inr left ↦ elim (Bool-cases (step == i)) [
        | inl here ↦ rw (left, here) (Perm.cons name rest)
        | inr elsewhere ↦ rw (left, elsewhere) rest
      ]
    ]

steps_end-select :
    (p : ℕ × Text → Bool) (names : List (ℕ × Text)) → steps_end (select p names) ≤ steps_end names
steps_end-select p [] = omega arith
steps_end-select p ((step, name) ∷ names) = ground (arith, steps_end-select p names)

-- If no wanted property has a step greater than the greatest one, both lists that a mode is given
-- have an entry for each step up to that one, and the entries for a step hold together exactly the
-- wanted properties of the step, each as often as it is wanted.
pub selection_of-perm :
    (most : ℕ) (props : List (ℕ × Text)) (i : ℕ)
    → steps_end props ≤ suc most
    → (length (selection_of most props).by_step ≡ suc most)
      × (length (selection_of most props).skipped_by_step ≡ suc most)
      × Perm
          (names_at (selection_of most props).by_step i
            ++ names_at (selection_of most props).skipped_by_step i)
          (of_step i props)
unfolding selection_of
selection_of-perm most props i within =
    let others = group_by_step-of_step (select (λ p. not (is_skipped p)) props) (some most) i in
    let skipped = group_by_step-of_step (select is_skipped props) (some most) i in
    let others_end = steps_end-select (λ p. not (is_skipped p)) props in
    let skipped_end = steps_end-select is_skipped props in
    (omega arith, omega arith, rw (others.0, skipped.0) (of_step-select is_skipped i props))
