-- ===== src/Conductor/Search.antt =====
-- The search for a strategy: `race`, `explore` and `build_strategy_rec`. The coroutines that
-- `gather` runs are taken in their order; sleeping, logging and the names of files are left out.
pub mod Single
pub mod Crash
pub mod Fuel
use emucpu.Prelude.{
  ℕ, zero, suc, ◌+◌, Bool, true, false, ◌||◌, guard, if◌then◌else◌, List, [], ◌∷◌, ◌++◌, map,
  Option, none, some, Result, ok, raise, ◌>>=◌, ◌>>◌,
}
use emucpu.Prelude.Int.{ℤ, pos, int_eq}
use emucpu.Prelude.Text.{Text, codes}
use emucpu.Conductor.Process.{ProcessResult}
use emucpu.Conductor.Steps.{Strategy}
use emucpu.Conductor.NameTree.{
  Tree, leaf, node, Trees, nil, cons, GroupError, leaves_then, find_all,
}
use emucpu.Conductor.Stored.{DecodeError}

-- An AssertionError, the RuntimeError of a coroutine that is awaited twice, the ValueError of `int`,
-- what is raised when names are grouped and strategies loaded, and the ExceptionGroup in which a
-- TaskGroup raises the error of its task; `out_of_fuel` is the model's own.
pub data SearchError : Type 0 where
  assertion_error : SearchError
  awaited_twice : SearchError
  exception_group : SearchError → SearchError
  value_error : Text → SearchError
  grouping : GroupError → SearchError
  decoding : DecodeError → SearchError
  out_of_fuel : SearchError

abbrev pub in_group {ℓ} : {A : Type ℓ} → Result SearchError A → Result SearchError A
in_group (ok a) = ok a
in_group (raise e) = raise (exception_group e)

-- `race`, on what each awaitable comes to. The wrappers run when the loop is over, so that each of
-- them awaits the awaitable that `task` was bound to last: with one awaitable that is the right
-- one, with more the second wrapper finds it awaited already. What a wrapper raises leaves the
-- TaskGroup in a group, shown by the RuntimeError of the second wrapper where there are two.
unfoldable pub race {ℓ} :
    {A : Type ℓ} → List (Result SearchError (Option A)) → Result SearchError (Option A)
race [] = ok none
race (task ∷ []) = in_group task
race (task ∷ u ∷ tasks) = raise (exception_group awaited_twice)

-- The exit code of aig-manip for some properties of a step, and what `shell` returns for a solver's
-- command, with a time limit in milliseconds or without, on the file that was made of them.
pub record Solvers : Type 0 where
  pub aig_manip : ℕ → List Text → Option ℤ
  pub shell : Text → Option ℕ → ℕ → List Text → ProcessResult

unfoldable pub has_code : ℕ → Option ℤ → Bool
has_code n none = false
has_code n (some code) = int_eq code (pos n)

-- The assertion of `prepare_aiger`.
unfoldable pub prepare_aiger : Solvers → ℕ → List Text → Result SearchError (Unit {0})
unfolding has_code
prepare_aiger env step props = guard (has_code 0 (env.aig_manip step props)) assertion_error

unfoldable pub explore_one :
    Solvers → ℕ → ℕ → List Text → Text → Result SearchError (Option (Text × ProcessResult))
unfolding has_code
explore_one env limit step props engine_config =
    let result = env.shell engine_config (some limit) step props in
    if has_code 10 result.code || has_code 20 result.code
    then ok (some (engine_config, result))
    else ok none

unfoldable pub explore :
    Solvers → ℕ → ℕ → List Text → List Text → Result SearchError (Option (Text × ProcessResult))
unfolding prepare_aiger explore_one race
explore env limit step props configs =
    prepare_aiger env step props >> race (map (explore_one env limit step props) configs)

abbrev pub kind_engine : Text
kind_engine = codes "rIC3 -e kind --no-preproc"

-- `ENGINES`
unfoldable pub engines : Bool → List Text
engines true = kind_engine ∷ []
engines false = codes "rIC3" ∷ kind_engine ∷ []

-- The strategy that was found, and `failures`.
abbrev pub Found : Type 0
Found = List Strategy × List (ℕ × Text)

abbrev pub strategy_of : ℕ → List Text → Text × ProcessResult → Strategy
strategy_of step props res = record { step = step; props = props; config = res.0; procres = res.1 }

-- What follows the exploration of one property.
unfoldable pub conclude_one : ℕ → Text → List (ℕ × Text) → Option (Text × ProcessResult) → Found
unfolding has_code
conclude_one step p failures none = ([], failures ++ (step, p) ∷ [])
conclude_one step p failures (some res) =
    if has_code 20 res.1.code
    then (strategy_of step (p ∷ []) res ∷ [], failures)
    else ([], failures)

unfoldable pub build_one : Solvers → Bool → ℕ → Text → List (ℕ × Text) → Result SearchError Found
unfolding explore engines conclude_one
build_one env difficult step p failures = do
  res ← explore env (if difficult then 1800000 else 600000) step (p ∷ []) (engines difficult)
  ok (conclude_one step p failures res)

unfoldable pub without_split :
    Solvers → Bool → ℕ → List Text → List (ℕ × Text) → Result SearchError (Option Found)
unfolding explore engines has_code
without_split env difficult step props failures =
    explore env 120000 step props (engines difficult) >>= found_block
  where
    found_block : Option (Text × ProcessResult) → Result SearchError (Option Found)
    found_block none = ok none
    found_block (some res) =
        if has_code 20 res.1.code
        then ok (some (strategy_of step props res ∷ [], failures))
        else ok none

-- `children` and `rest` of `with_split`.
unfoldable pub children_of : Trees → List Trees
children_of nil = []
children_of (cons (leaf p) ts) = children_of ts
children_of (cons (node us) ts) = us ∷ children_of ts

unfoldable pub rest_of : Trees → List Text
rest_of nil = []
rest_of (cons (leaf p) ts) = p ∷ rest_of ts
rest_of (cons (node us) ts) = rest_of ts

-- `asyncio.gather` on the same search for several trees, with the results joined.
unfoldable pub gather :
    (Trees → List (ℕ × Text) → Result SearchError Found)
    → List Trees
    → List (ℕ × Text)
    → Result SearchError Found
gather build [] failures = ok ([], failures)
gather build (t ∷ ts) failures = do
  first ← build t failures
  rest ← gather build ts first.1
  ok (first.0 ++ rest.0, rest.1)

unfoldable pub with_split :
    (Trees → List (ℕ × Text) → Result SearchError Found)
    → Trees
    → List (ℕ × Text)
    → Result SearchError (Option Found)
unfolding children_of rest_of gather leaves_then
with_split build ts failures =
    gather build (trees (children_of ts)) failures >>= λ found. ok (some found)
  where
    trees : List Trees → List Trees
    trees [] = map (λ p. cons (leaf p) nil) (rest_of ts)
    trees (child ∷ children) = (child ∷ children) ++ leaves_then (rest_of ts) nil ∷ []

-- `assert winner is not None`
abbrev pub winner_of : Option Found → Result SearchError Found
winner_of none = raise assertion_error
winner_of (some found) = ok found

-- `prop_tree[0]`, a list where it is used: a name alone is one property.
unfoldable pub inside : Tree → Trees
inside (leaf p) = cons (leaf p) nil
inside (node ts) = ts

-- The body of `build_strategy_rec` on the properties of the tree, with its own calls as an argument.
unfoldable pub build_for :
    Solvers
    → Bool
    → ℕ
    → (Trees → List (ℕ × Text) → Result SearchError Found)
    → List Text
    → Trees
    → List (ℕ × Text)
    → Result SearchError Found
unfolding build_one without_split with_split race inside
build_for env difficult step build [] ts failures = ok ([], failures)
build_for env difficult step build (p ∷ []) ts failures = build_one env difficult step p failures
build_for env difficult step build (p ∷ q ∷ props) (cons t nil) failures = build (inside t) failures
build_for env difficult step build (p ∷ q ∷ props) ts failures =
    race (
      without_split env difficult step (p ∷ q ∷ props) failures ∷ with_split build ts failures ∷ [])
    >>= winner_of

-- `build_strategy_rec`, on fuel for the depth of its calls.
unfoldable pub build_on :
    Solvers → Bool → ℕ → ℕ → Trees → List (ℕ × Text) → Result SearchError Found
unfolding build_for
build_on env difficult step zero ts failures = raise out_of_fuel
build_on env difficult step (suc fuel) ts failures =
    build_for env difficult step (build_on env difficult step fuel) (find_all ts) ts failures

-- A call is on fewer lists and names than the call that makes it.
unfoldable mutual
  pub size_in : Tree → ℕ
  size_in (leaf p) = 1
  size_in (node ts) = suc (size_all ts)

  pub size_all : Trees → ℕ
  size_all nil = 0
  size_all (cons t ts) = size_in t + size_all ts

unfoldable pub build_strategy_rec :
    Solvers → Bool → ℕ → Trees → List (ℕ × Text) → Result SearchError Found
unfolding build_on
build_strategy_rec env difficult step ts failures =
    build_on env difficult step (suc (size_all ts)) ts failures
