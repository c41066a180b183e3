-- ===== src/Conductor/Steps.antt =====
-- `group_by_step`, `missing_from`, the completeness check of `prove_mode` and what `info_mode` lists
-- as unaccounted for.
pub mod Grouping
pub mod Covered
use emucpu.Prelude.{
  ℕ, zero, suc, ◌+◌, Bool, true, false, not, ◌&&◌, leb, if◌then◌else◌, List, [], ◌∷◌, ◌++◌, map,
  flatten, length, Option, none, some, select,
}
use emucpu.Prelude.Text.{Text, text_eq}
use emucpu.Prelude.Dict.{mem_text}
use emucpu.Conductor.Process.{ProcessResult}

-- `while step >= len(by_step): by_step.append([])`. A list that is too short by `fuel` rounds at
-- most is made long enough.
unfoldable pub grow : ℕ → ℕ → List (List Text) → List (List Text)
grow zero step by_step = by_step
grow (suc fuel) step by_step =
    let rest = grow fuel step (by_step ++ [] ∷ []) in
    if leb (length by_step) step then rest else by_step

-- `by_step[step].append(name)`; the step is in range when it is called.
unfoldable pub append_at : ℕ → Text → List (List Text) → List (List Text)
append_at step name [] = []
append_at zero name (names ∷ by_step) = (names ++ name ∷ []) ∷ by_step
append_at (suc step) name (names ∷ by_step) = names ∷ append_at step name by_step

unfoldable pub group_from : List (ℕ × Text) → List (List Text) → List (List Text)
unfolding grow append_at
group_from [] by_step = by_step
group_from ((step, name) ∷ names) by_step =
    group_from names (append_at step name (grow (suc step) step by_step))

unfoldable pub group_by_step : List (ℕ × Text) → Option ℕ → List (List Text)
unfolding group_from
group_by_step names none = group_from names []
group_by_step names (some most) = grow (suc most) most (group_from names [])

pub record Strategy : Type 0 where
  pub step : ℕ
  pub props : List Text
  pub config : Text
  pub procres : ProcessResult

unfoldable pub covered : List Strategy → List Text
covered [] = []
covered (s ∷ strategy) = s.props ++ covered strategy

-- `list(set(props).difference(done))`: each property once, in the order of first occurrence, where
-- Python leaves the order open.
unfoldable pub difference : List Text → List Text → List Text
difference [] done = []
difference (p ∷ props) done =
    let skipped = difference props done in
    let rest = difference props (p ∷ done) in if mem_text p done then skipped else p ∷ rest

unfoldable pub missing_from : List Strategy → List Text → List Text
unfolding covered difference
missing_from strategy props = difference props (covered strategy)

-- The `--check-complete` part of `prove_mode`: the exit code 1, or `none` where it goes on.
unfoldable pub check_complete : List (ℕ × Text) → List Strategy → Option ℕ
unfolding covered difference
check_complete all_props strategies =
    elim (difference (map (λ p. p.1) all_props) (covered strategies)) [ [] ↦ none | _ ↦ some 1 ]

-- The properties of a step that `info_mode` reports as unaccounted for.
unfoldable pub unaccounted : List Strategy → List Text → List Text
unfolding covered
unaccounted strategy props = select (λ prop. not (mem_text prop (covered strategy))) props
