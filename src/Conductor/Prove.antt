-- ===== src/Conductor/Prove.antt =====
-- Running the stored strategies: `run_strategy` and `prove_mode`. The coroutines that `gather` runs
-- are taken in their order; logging is left out.
pub mod Verdict
use emucpu.Prelude.{
  ℕ, zero, suc, ◌-◌, Bool, true, false, not, ltb, leb, ◌==◌, if◌then◌else◌, List, [], ◌∷◌, ◌++◌,
  all, any, length, Option, none, some, Result, ok, raise, ◌>>=◌, ◌>>◌, map_ok,
}
use emucpu.Prelude.Int.{ℤ, pos, negsuc}
use emucpu.Prelude.Text.{Text, codes, contains, starts_with, strip, show_int}
use emucpu.Requirements.Semver.{is_digit, value}
use emucpu.Conductor.Process.{ProcessResult}
use emucpu.Conductor.Steps.{Strategy, check_complete}
use emucpu.Conductor.Stored.{StrategyFile, load_strategy}
use emucpu.Conductor.Search.{SearchError, value_error, decoding, Solvers, has_code, prepare_aiger}
use emucpu.Conductor.Explore.{lift}

-- `s.split(sep)` for a separator that is not empty: what stands before the first one, and what
-- follows each. So many characters belong to a separator that was seen.
unfoldable pub parts_from : Text → ℕ → Text → Text × List Text
unfolding starts_with
parts_from sep skip [] = ([], [])
parts_from sep (suc skip) (c ∷ s) = parts_from sep skip s
parts_from sep zero (c ∷ s) =
    let behind = parts_from sep (length sep - 1) s in
    let within = parts_from sep zero s in
    if starts_with (c ∷ s) sep then ([], behind.0 ∷ behind.1) else (c ∷ within.0, within.1)

-- `int(s)` on a text without white space, for digits with or without a sign.
unfoldable pub digits_value : Text → Option ℕ
unfolding is_digit value
digits_value [] = none
digits_value (c ∷ s) = if all is_digit (c ∷ s) then some (value (c ∷ s)) else none

abbrev pub negated : ℕ → ℤ
negated zero = pos 0
negated (suc n) = negsuc n

unfoldable pub parse_int : Text → Result SearchError ℤ
unfolding digits_value
parse_int s = signed s
  where
    number : (ℕ → ℤ) → Option ℕ → Result SearchError ℤ
    number sign none = raise (value_error s)
    number sign (some n) = ok (sign n)

    signed : Text → Result SearchError ℤ
    signed [] = raise (value_error s)
    signed (c ∷ r) =
        if c == b'-'
        then number negated (digits_value r)
        else if c == b'+'
        then number pos (digits_value r)
        else number pos (digits_value (c ∷ r))

abbrev pub depth_marker : Text
depth_marker = codes "[INFO ] k-induction proofed in depth "

-- `conf` on what stands behind the marker in the errors' text.
unfoldable pub start_at : Text → List Text → Result SearchError Text
unfolding parse_int strip show_int
start_at config (depth ∷ []) =
    parse_int (strip depth) >>= λ n. ok (config ++ codes " --start " ++ show_int n)
start_at config _ = ok config

-- `conf`: a proof by induction starts at the depth that was found before.
unfoldable pub config_of : Strategy → Result SearchError Text
unfolding start_at parts_from contains
config_of s = elim s.procres.stderr [
  | none ↦ ok s.config
  | some stderr ↦
      if contains (codes " -e kind ") s.config
      then start_at s.config (parts_from depth_marker 0 stderr).1
      else ok s.config
]

-- `strategy.sort(key=lambda x: x.procres.dt, reverse=True)`, which is stable.
unfoldable pub insert_slower : Strategy → List Strategy → List Strategy
insert_slower s [] = s ∷ []
insert_slower s (t ∷ ts) =
    let later = insert_slower s ts in
    if leb t.procres.dt s.procres.dt then s ∷ t ∷ ts else t ∷ later

unfoldable pub slowest_first : List Strategy → List Strategy
unfolding insert_slower
slowest_first [] = []
slowest_first (s ∷ strategy) = insert_slower s (slowest_first strategy)

unfoldable pub configured : Strategy → Result SearchError (Text × Strategy)
unfolding config_of
configured s = config_of s >>= λ conf. ok (conf, s)

-- `prove`, without a time limit.
unfoldable pub prove : Solvers → Text × Strategy → Result SearchError (ProcessResult × Strategy)
unfolding prepare_aiger
prove env (conf, s) = prepare_aiger env s.step s.props >> ok (env.shell conf none s.step s.props, s)

unfoldable pub run_strategy :
    Solvers → List Strategy → Result SearchError (List (ProcessResult × Strategy))
unfolding slowest_first configured prove
run_strategy env strategy = map_ok configured (slowest_first strategy) >>= map_ok (prove env)

-- `--fresh`, `--by-step`, `--check-complete` and `--start`.
pub record ProveArgs : Type 0 where
  pub fresh : Bool
  pub by_step : Bool
  pub complete : Bool
  pub start : ℕ

-- One step's strategy, sorted in place if it is run.
unfoldable pub run_step : Solvers → Bool → List Strategy → Result SearchError (List Strategy)
unfolding run_strategy slowest_first
run_step env false strategy = ok strategy
run_step env true strategy = run_strategy env strategy >>= λ results. ok (slowest_first strategy)

unfoldable pub loaded_step :
    Solvers → Bool → Option (List Strategy) → Result SearchError (List Strategy)
unfolding run_step
loaded_step env by_step none = ok []
loaded_step env by_step (some []) = ok []
loaded_step env by_step (some (s ∷ strategy)) = run_step env by_step (s ∷ strategy)

-- The loop of `prove_mode` from a step on: `all_strategies`.
unfoldable pub collect :
    Solvers
    → ProveArgs
    → (ℕ → StrategyFile)
    → ℕ
    → List (List Text)
    → Result SearchError (List Strategy)
unfolding loaded_step load_strategy
collect env args files step [] = ok []
collect env args files step (props ∷ by_step) =
    let rest = collect env args files (suc step) by_step in
    if ltb step args.start then rest else (do
      loaded ← lift decoding (load_strategy args.fresh (files step))
      strategy ← loaded_step env args.by_step loaded
      more ← rest
      ok (strategy ++ more))

abbrev pub is_unproved : ProcessResult × Strategy → Bool
is_unproved (res, s) = not (has_code 20 res.code)

-- The end of `prove_mode`: the exit code 1, or `none` where it returns.
unfoldable pub run_all_strategies :
    Solvers → ProveArgs → List Strategy → Result SearchError (Option ℕ)
unfolding run_strategy has_code
run_all_strategies env args strategies =
    if args.by_step
    then ok none
    else (run_strategy env strategies >>= λ results.
        ok (if any is_unproved results then some 1 else none))

unfoldable pub after_check :
    Solvers → ProveArgs → List Strategy → Option ℕ → Result SearchError (Option ℕ)
unfolding run_all_strategies
after_check env args strategies (some code) = ok (some code)
after_check env args strategies none = run_all_strategies env args strategies

unfoldable pub prove_mode :
    Solvers
    → ProveArgs
    → (ℕ → StrategyFile)
    → List (ℕ × Text)
    → List (List Text)
    → Result SearchError (Option ℕ)
unfolding collect after_check check_complete
prove_mode env args files all_props by_step = do
  strategies ← collect env args files 0 by_step
  after_check env args strategies
      (if args.complete then check_complete all_props strategies else none)
