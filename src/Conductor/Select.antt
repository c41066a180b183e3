-- ===== src/Conductor/Select.antt =====
-- The names of the properties and which of them are worked on: `main`, up to the choice of a mode.
pub mod Names
pub mod Steps
use emucpu.Prelude.{
  ℕ, suc, max, Bool, true, false, not, if◌then◌else◌, List, [], ◌∷◌, ◌++◌, map, select, drop, ◌==◌,
  Option, none, some, Result, ok, raise, ◌>>=◌, ◌>>◌, guard, map_ok,
}
use emucpu.Prelude.Int.{ℤ, pos, negsuc}
use emucpu.Prelude.Text.{Text, codes, text_eq, starts_with, ends_with}
use emucpu.Prelude.Dict.{mem_text}
use emucpu.Conductor.Process.{ProcessResult}
use emucpu.Conductor.Steps.{Strategy, group_by_step, missing_from}
use emucpu.Conductor.Stored.{DecodeError, StrategyFile, load_strategy}
use emucpu.Requirements.Semver.{is_digit, value}
use emucpu.Conductor.Prove.{digits_value}

-- SKIPPED_PROPS
abbrev pub skipped_props : List Text
skipped_props =
    codes "MType_Div_Data"
    ∷ codes "MType_Rem_Data"
    ∷ codes "MType_Mul_Data"
    ∷ codes "MType_RemU_Data"
    ∷ codes "MType_MulH_Data"
    ∷ codes "MType_DivU_Data"
    ∷ codes "MType_MulHU_Data"
    ∷ codes "MType_MulHSH_Data"
    ∷ []

-- No `$` in a name, no `Step` behind it, no `_`, no number, or no property at all; an unknown
-- property, for which the program exits with code 1; a file that cannot be decoded.
pub data SelectError : Type 0 where
  index_error : SelectError
  assertion_error : SelectError
  unpack_error : SelectError
  no_number : SelectError
  no_properties : SelectError
  exit_1 : SelectError
  decoding : DecodeError → SelectError

-- What stands before the first such character, and what stands behind it if there is one.
unfoldable pub cut : ℕ → Text → Text × Option Text
cut sep [] = ([], none)
cut sep (c ∷ s) = let rest = cut sep s in if c == sep then ([], some s) else (c ∷ rest.0, rest.1)

-- `name.split("$")[1]`
unfoldable pub second_part : Text → Result SelectError Text
unfolding cut
second_part name = elim (cut b'$' name).1 [ none ↦ raise index_error | some s ↦ ok (cut b'$' s).0 ]

-- `int(step[4:])`, for digits.
unfoldable pub step_number : Text → Result SelectError ℕ
unfolding digits_value
step_number step = elim (digits_value (drop 4 step)) [ none ↦ raise no_number | some n ↦ ok n ]

-- `step, rest = first.split("_", maxsplit=1)`, and the number.
unfoldable pub step_parts : Text × Option Text → Result SelectError (ℕ × Text)
unfolding step_number
step_parts (step, none) = raise unpack_error
step_parts (step, some rest) = step_number step >>= λ n. ok (n, rest)

unfoldable pub split_step : Text → Result SelectError (ℕ × Text)
unfolding cut step_parts
split_step first = step_parts (cut b'_' first)

unfoldable pub preproc_name : Text → Result SelectError (ℕ × Text)
unfolding second_part split_step starts_with
preproc_name name = do
  part ← second_part name
  guard (starts_with (drop 5 part) (codes "Step")) assertion_error >> split_step (drop 5 part)

-- `max(step for step, _ in names)`
unfoldable pub max_step : List (ℕ × Text) → Result SelectError ℕ
max_step [] = raise no_properties
max_step ((step, name) ∷ []) = ok step
max_step ((step, name) ∷ n ∷ names) = max_step (n ∷ names) >>= λ most. ok (max step most)

-- The loop over `args.properties`: the first property of that name.
unfoldable pub find_name : Text → List (ℕ × Text) → Result SelectError (ℕ × Text)
find_name prop [] = raise exit_1
find_name prop ((step, name) ∷ names) =
    let later = find_name prop names in if text_eq prop name then ok (step, prop) else later

-- The part for `--missing`, from a step on.
unfoldable pub missing_props :
    Bool → (ℕ → StrategyFile) → ℕ → List (List Text) → Result SelectError (List (ℕ × Text))
unfolding load_strategy missing_from
missing_props fresh files step [] = ok []
missing_props fresh files step (sprops ∷ by_step) =
    let rest = missing_props fresh files (suc step) by_step in
    elim (load_strategy fresh (files step)) [
      | raise e ↦ raise (decoding e)
      | ok none ↦ rest
      | ok (some strategy) ↦
          rest >>= λ more. ok (map (λ p. (step, p)) (missing_from strategy sprops) ++ more)
    ]

-- `props` before the skipped ones are taken out.
unfoldable pub props_wanted :
    Bool
    → Bool
    → (ℕ → StrategyFile)
    → List Text
    → List (ℕ × Text)
    → Result SelectError (List (ℕ × Text))
unfolding missing_props find_name
props_wanted fresh true files properties names = do
  props ← map_ok (λ prop. find_name prop names) properties
  more ← missing_props fresh files 0 (group_by_step names none)
  ok (props ++ more)
props_wanted fresh false files properties names =
    map_ok (λ prop. find_name prop names) properties >>= or_all
  where
    or_all : List (ℕ × Text) → Result SelectError (List (ℕ × Text))
    or_all [] = ok names
    or_all (p ∷ props) = ok (p ∷ props)

-- What the modes are called with.
pub record Selection : Type 0 where
  pub props : List (ℕ × Text)
  pub by_step : List (List Text)
  pub skipped_by_step : List (List Text)

abbrev pub is_skipped : ℕ × Text → Bool
is_skipped p = mem_text p.1 skipped_props

unfoldable pub selection_of : ℕ → List (ℕ × Text) → Selection
selection_of most props = record {
  props = select (λ p. not (is_skipped p)) props;
  by_step = group_by_step (select (λ p. not (is_skipped p)) props) (some most);
  skipped_by_step = group_by_step (select is_skipped props) (some most);
}

-- `main`, on the names of the assertions, `--fresh`, `--missing`, the stored strategies and `-p`.
unfoldable pub select_props :
    Bool → Bool → (ℕ → StrategyFile) → List Text → List Text → Result SelectError Selection
unfolding preproc_name max_step props_wanted selection_of ends_with
select_props fresh missing files properties asserts = do
  all_names ← map_ok preproc_name asserts
  most ← max_step all_names
  props ←
      props_wanted fresh missing files properties
        (select (λ p. not (ends_with p.1 (codes "_Cover"))) all_names)
  ok (selection_of most props)
