-- ===== src/Smt2Manip.antt =====
-- dv/formal/smt2manip.py: which assertions of a Yosys SMT2 file are kept, assumed or deleted for a
-- step.
pub mod Passes
use emucpu.Prelude.{
  ℕ, Bool, true, false, not, ◌&&◌, ◌||◌, ◌==◌, ltb, if◌then◌else◌, List, [], ◌∷◌, ◌++◌, map, drop,
  Option, none, some, Result, ok, raise, ◌>>=◌, ◌>>◌, guard,
}
use emucpu.Prelude.Text.{Text, codes, text_eq, starts_with, ends_with, join}
use emucpu.Prelude.Dict.{mem_text}
use emucpu.Requirements.Check.{split_on}
use emucpu.Requirements.Semver.{SemverError, span, some_first, some_digits, literal}
use emucpu.Conductor.Select.{SelectError, assertion_error, cut, split_step}

-- `args.step` and `args.props`
pub record Asked : Type 0 where
  pub step : ℕ
  pub props : List Text

-- `m[1]` and `m[2]` for `; yosys-smt2-assert ([0-9]+) ([^ ]+)`, if the line matches.
unfoldable pub match_assert : Text → Result SemverError (Text × Text)
unfolding literal some_digits span
match_assert line = do
  digits_on ← literal (codes "; yosys-smt2-assert ") line
  digits ← some_digits digits_on
  name_on ← literal (codes " ") digits.1
  name ← some_first (span (λ c. not (c == b' ')) name_on)
  ok (digits.0, name.0)

-- `m[1]` for `  \(\|top_a ([0-9]+)\| state\)`, if the line matches.
unfoldable pub match_state : Text → Result SemverError Text
unfolding literal some_digits
match_state line = do
  digits_on ← literal (codes "  (|top_a ") line
  digits ← some_digits digits_on
  rest ← literal (codes "| state)") digits.1
  ok digits.0

-- The step and the name that an assertion has.
unfoldable pub step_and_name : Text → Result SelectError (ℕ × Text)
unfolding cut split_step starts_with
step_and_name m =
    let name = (cut b'$' (drop 6 m)).0 in
    guard (starts_with name (codes "Step")) assertion_error >> split_step name

-- What becomes of an assertion.
pub data Verdict : Type 0 where
  delete : Verdict
  assert_to_assume : Verdict
  keep : Verdict

abbrev has_props : List Text → Bool
has_props [] = false
has_props (p ∷ props) = true

unfoldable pub verdict : Asked → ℕ → Text → Verdict
unfolding ends_with mem_text
verdict args step name =
    if ends_with name (codes "_Cover")
      || ltb args.step step
      || (step == args.step && has_props args.props && not (mem_text name args.props))
    then delete
    else if ltb step args.step
    then assert_to_assume
    else keep

-- `mapped`, `to_assume` and `delete`
pub record Lists : Type 0 where
  pub mapped : List Text
  pub to_assume : List Text
  pub deleted : List Text

unfoldable pub note : Verdict → Text → Text → Lists → Lists
note delete id line l = record l { mapped = l.mapped ++ line ∷ []; deleted = l.deleted ++ id ∷ [] }
note assert_to_assume id line l = record l {
  mapped = l.mapped ++ line ∷ [];
  to_assume = l.to_assume ++ id ∷ [];
}
note keep id line l = record l { mapped = l.mapped ++ line ∷ [] }

abbrev pub top_u : Text
top_u = codes "(define-fun |top_u| ((state |top_s|)) Bool (and"

-- What the lines that are no assertion become, with the two lists as they are.
unfoldable pub rewritten : List Text → List Text → Text → List Text
unfolding match_state mem_text text_eq
rewritten to_assume deleted line = elim (match_state line) [
  | ok id ↦ if mem_text id to_assume || mem_text id deleted then [] else line ∷ []
  | raise e ↦
      if text_eq line top_u
      then line ∷ map (λ id. codes "  (|top_a " ++ (id ++ codes "| state)")) to_assume
      else line ∷ []
]

-- The body of the loop.
unfoldable pub on_line : Asked → Text → Lists → Result SelectError Lists
unfolding match_assert step_and_name verdict note rewritten
on_line args line l = elim (match_assert line) [
  | ok m ↦ step_and_name m.1 >>= λ s. ok (note (verdict args s.0 s.1) m.0 line l)
  | raise e ↦ ok (record l { mapped = l.mapped ++ rewritten l.to_assume l.deleted line })
]

unfoldable pub on_lines : Asked → List Text → Lists → Result SelectError Lists
unfolding on_line
on_lines args [] l = ok l
on_lines args (line ∷ lines) l = on_line args line l >>= λ m. on_lines args lines m

abbrev pub no_lists : Lists
no_lists = record { mapped = []; to_assume = []; deleted = [] }

-- The program, on the text of its input; an error ends it before it writes.
unfoldable pub smt2manip : Asked → Text → Result SelectError Text
unfolding on_lines split_on join
smt2manip args smt2 =
    on_lines args (split_on 10 smt2) no_lists >>= λ l. ok (join (codes "\n") l.mapped)
