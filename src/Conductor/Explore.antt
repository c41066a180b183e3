-- ===== src/Conductor/Explore.antt =====
-- `construct_strategy`: extending the stored strategy of a step to the properties that it leaves out.
pub mod Hard
pub mod Easy
pub mod Mode
use emucpu.Prelude.{
  ℕ, Bool, true, false, if◌then◌else◌, List, [], ◌∷◌, ◌++◌, map, Option, none, some, Result, ok,
  raise, ◌>>=◌,
}
use emucpu.Prelude.Text.{Text}
use emucpu.Conductor.Steps.{Strategy, missing_from}
use emucpu.Conductor.NameTree.{Trees, leaf, nil, cons, GroupError, split_by_prefixes}
use emucpu.Conductor.Stored.{DecodeError, StrategyFile, Json, load_strategy, store_strategy}
use emucpu.Conductor.Search.{
  SearchError, grouping, decoding, Solvers, Found, gather, build_strategy_rec,
}

-- `--fresh`, `--no-store` and `--hard`.
pub record ExploreArgs : Type 0 where
  pub fresh : Bool
  pub no_store : Bool
  pub hard : Bool

-- Whether the strategy is new, the strategy, and the properties that the search gave up.
pub record Constructed : Type 0 where
  pub new : Bool
  pub strategy : List Strategy
  pub failures : List Text

-- `load_strategy(step) or []`
abbrev pub strategy_or_empty : Option (List Strategy) → List Strategy
strategy_or_empty none = []
strategy_or_empty (some strategy) = strategy

-- Errors of one part as errors of the whole.
abbrev pub lift {ℓ κ} :
    {E : Type ℓ} {A : Type κ} → (E → SearchError) → Result E A → Result SearchError A
lift f (raise e) = raise (f e)
lift f (ok a) = ok a

-- The two ways of searching.
unfoldable pub search : Solvers → Bool → ℕ → List Text → Result SearchError Found
unfolding gather build_strategy_rec
search env hard step not_done =
    if hard
    then gather (build_strategy_rec env true step) (map (λ p. cons (leaf p) nil) not_done) []
    else (lift grouping (split_by_prefixes not_done) >>= λ blocks.
        build_strategy_rec env false step blocks [])

abbrev pub new_strategy : List (ℕ × Text) → List Strategy → Constructed
new_strategy failures strategy = record {
  new = true;
  strategy = strategy;
  failures = map (λ f. f.1) failures;
}

-- The end of `construct_strategy`, on what the search comes to.
unfoldable pub store_found :
    ExploreArgs
    → (Json → StrategyFile)
    → List Strategy
    → StrategyFile
    → Result SearchError Found
    → StrategyFile × Result SearchError Constructed
unfolding store_strategy
store_found args save strategy file (raise e) = (file, raise e)
store_found args save strategy file (ok (steps, failures)) =
    let (file', stored) = store_strategy args.no_store save (strategy ++ steps) file in
    (file', lift decoding stored >>= λ all. ok (new_strategy failures all))

-- `construct_strategy` from the loaded strategy on.
unfoldable pub construct_from :
    Solvers
    → ExploreArgs
    → (Json → StrategyFile)
    → ℕ
    → List Strategy
    → List Text
    → StrategyFile
    → StrategyFile × Result SearchError Constructed
unfolding search store_found
construct_from env args save step strategy [] file =
    (file, ok (record { new = false; strategy = strategy; failures = [] }))
construct_from env args save step strategy (p ∷ not_done) file =
    store_found args save strategy file (search env args.hard step (p ∷ not_done))

unfoldable pub construct_strategy :
    Solvers
    → ExploreArgs
    → (Json → StrategyFile)
    → ℕ
    → List Text
    → StrategyFile
    → StrategyFile × Result SearchError Constructed
unfolding construct_from missing_from load_strategy
construct_strategy env args save step props file = elim (load_strategy args.fresh file) [
  | raise e ↦ (file, raise (decoding e))
  | ok loaded ↦
      let strategy = strategy_or_empty loaded in
      construct_from env args save step strategy (missing_from strategy props) file
]
