-- ===== src/Conductor/Explore/Easy.antt =====
-- What `construct_strategy` comes to without `--hard`.
use emucpu.Prelude.{ℕ, false, List, [], ◌∷◌, All, Option, ok, raise, arith, ◌≡◌, ◌≢◌, refl, sym}
use mathlib.Core.List.Perm
use emucpu.Prelude.Text.{Text}
use emucpu.Conductor.Steps.{Strategy, missing_from}
use emucpu.Conductor.NameTree.{Trees, find_all}
use emucpu.Conductor.NameTree.Leaves.{split_by_prefixes-perm}
use emucpu.Conductor.Stored.{Json, StrategyFile, load_strategy}
use emucpu.Conductor.Search.{awaited_twice, exception_group, Solvers, build_strategy_rec}
use emucpu.Conductor.Search.Single.{Prepares, build_easy}
use emucpu.Conductor.Search.Crash.{build_strategy_rec-awaited_twice}
use emucpu.Conductor.Explore.{
  ExploreArgs, strategy_or_empty, search, store_found, construct_from, construct_strategy,
}

build_easy_nonempty :
    (env : Solvers) (step : ℕ) (ts : Trees) (props : List Text)
    → find_all ts ≡ props
    → props ≢ []
    → Prepares env step
    → build_strategy_rec env false step ts [] ≡ raise (exception_group awaited_twice)
build_easy_nonempty env step ts [] e some_prop prepares = absurd (some_prop refl)
build_easy_nonempty env step ts (p ∷ []) e some_prop prepares =
    build_easy env step ts p [] e prepares
build_easy_nonempty env step ts (p ∷ q ∷ props) e some_prop prepares =
    build_strategy_rec-awaited_twice env false step ts [] (rw e (omega arith))

search_easy :
    (env : Solvers) (step : ℕ) (not_done : List Text)
    → not_done ≢ []
    → All (λ name. name ≢ []) not_done
    → Prepares env step
    → search env false step not_done ≡ raise (exception_group awaited_twice)
unfolding search
search_easy env step not_done some_prop named prepares =
    let (ts, split, leaves) = split_by_prefixes-perm not_done named in
    rw (search, split)
      (build_easy_nonempty env step ts (find_all ts) refl
        (λ e. some_prop (sym (Perm.nil-eq (rw e at leaves)))) prepares)

-- Without `--hard`, and with aig-manip preparing every property, say that the stored strategy leaves
-- out a property of a step, and that none it leaves out has an empty name. Then the step ends in an
-- ExceptionGroup around the RuntimeError of a coroutine that is awaited twice, and no strategy is
-- stored.
pub construct_strategy-awaited_twice :
    (env : Solvers) (args : ExploreArgs) (save : Json → StrategyFile) (step : ℕ) (props : List Text)
    (file : StrategyFile) (loaded : Option (List Strategy))
    → args.hard ≡ false
    → Prepares env step
    → load_strategy args.fresh file ≡ ok loaded
    → missing_from (strategy_or_empty loaded) props ≢ []
    → All (λ name. name ≢ []) (missing_from (strategy_or_empty loaded) props)
    → construct_strategy env args save step props file
      ≡ (file, raise (exception_group awaited_twice))
unfolding construct_strategy construct_from store_found
construct_strategy-awaited_twice env args save step props file loaded easy prepares read open_prop
      named =
    rw (construct_strategy, read)
      (from_missing (missing_from (strategy_or_empty loaded) props) open_prop named)
  where
    from_missing :
        (not_done : List Text)
        → not_done ≢ []
        → All (λ name. name ≢ []) not_done
        → construct_from env args save step (strategy_or_empty loaded) not_done file
          ≡ (file, raise (exception_group awaited_twice))
    from_missing [] some_prop named = absurd (some_prop refl)
    from_missing (p ∷ not_done) some_prop named =
        rw (easy, search_easy env step (p ∷ not_done) some_prop named prepares) refl
