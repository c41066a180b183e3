-- ===== src/Conductor/Explore/Mode.antt =====
-- `explore_mode`, on the files of all steps.
pub mod Keeps
use emucpu.Prelude.{
  ℕ, suc, ◌==◌, Bool, true, false, not, ◌&&◌, ltb, if◌then◌else◌, List, [], ◌∷◌, ◌++◌, length,
  Result, ok, raise, ◌>>=◌, ◌>>◌,
}
use emucpu.Prelude.Text.{Text}
use emucpu.Conductor.Steps.{Strategy}
use emucpu.Conductor.Stored.{Json, StrategyFile}
use emucpu.Conductor.Search.{SearchError, Solvers}
use emucpu.Conductor.Explore.{ExploreArgs, Constructed, construct_strategy}
use emucpu.Conductor.Prove.{run_strategy}

-- The strategies directory: a file for each step.
abbrev pub Files : Type 0
Files = ℕ → StrategyFile

unfoldable pub with_file : ℕ → StrategyFile → Files → Files
with_file step file files n = if n == step then file else files n

-- `--start` and `--no-run`.
pub record LoopArgs : Type 0 where
  pub start : ℕ
  pub no_run : Bool

-- The check of a strategy: left out on request, or if the search has just run its only step. What
-- the solvers answer is not looked at.
unfoldable pub check_run : Solvers → LoopArgs → Constructed → Result SearchError (Unit {0})
unfolding run_strategy
check_run env loop c =
    if not loop.no_run && not (c.new && length c.strategy == 1)
    then (run_strategy env c.strategy >>= λ results. ok tt)
    else ok tt

-- An exception ends the mode, with the files as they are then.
unfoldable pub explore_from :
    Solvers
    → ExploreArgs
    → LoopArgs
    → (Json → StrategyFile)
    → ℕ
    → List (List Text)
    → List Text
    → Files
    → Files × Result SearchError (List Text)
unfolding construct_strategy check_run with_file
explore_from env args loop save step [] failures files = (files, ok failures)
explore_from env args loop save step (props ∷ by_step) failures files =
    let constructed = construct_strategy env args save step props (files step) in
    let files' = with_file step constructed.0 files in
    let skipped = explore_from env args loop save (suc step) by_step failures files in
    if ltb step loop.start then skipped else elim constructed.1 [
      | raise e ↦ (files', raise e)
      | ok c ↦ elim (check_run env loop c) [
        | raise e ↦ (files', raise e)
        | ok u ↦ explore_from env args loop save (suc step) by_step (failures ++ c.failures) files'
      ]
    ]

unfoldable pub explore_mode :
    Solvers
    → ExploreArgs
    → LoopArgs
    → (Json → StrategyFile)
    → List (List Text)
    → Files
    → Files × Result SearchError (List Text)
unfolding explore_from
explore_mode env args loop save by_step files = explore_from env args loop save 0 by_step [] files
