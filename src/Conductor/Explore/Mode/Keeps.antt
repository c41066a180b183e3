-- ===== src/Conductor/Explore/Mode/Keeps.antt =====
-- Exploring never loses a proof that is stored.
use emucpu.Prelude.{
  ℕ, suc, ◌==◌, true, false, ltb, List, [], ◌∷◌, ◌++◌, Option, Result, ok, raise, Result-cases, ◌≡◌,
  refl, Bool-cases, inl, inr, ==_iff,
}
use emucpu.Prelude.Text.{Text}
use emucpu.Prelude.Dict.{mem_text, mem_text-append}
use emucpu.Conductor.Steps.{Strategy, covered, missing_from}
use emucpu.Conductor.Stored.{
  StrategyFile, holds, DecodeError, load_strategy, store_strategy, encode_all,
}
use emucpu.Conductor.Stored.RoundTrip.{decode_all-encode_all}
use emucpu.Conductor.Search.{SearchError, Solvers, Found}
use emucpu.Conductor.Explore.{
  ExploreArgs, strategy_or_empty, search, store_found, construct_from, construct_strategy,
}
use emucpu.Conductor.Explore.Hard.{covered-append}
use emucpu.Conductor.Explore.Mode.{
  Files, with_file, LoopArgs, check_run, explore_from, explore_mode,
}

-- The properties that a file's strategy covers.
abbrev pub covered_by_loaded : Result DecodeError (Option (List Strategy)) → List Text
covered_by_loaded (raise e) = []
covered_by_loaded (ok loaded) = covered (strategy_or_empty loaded)

abbrev pub stored_props : StrategyFile → List Text
stored_props file = covered_by_loaded (load_strategy false file)

stored_props-encode_all :
    (strategy : List Strategy) → stored_props (holds (encode_all strategy)) ≡ covered strategy
unfolding load_strategy
stored_props-encode_all strategy = rw (decode_all-encode_all strategy) refl

store_found-keeps :
    (args : ExploreArgs) (strategy : List Strategy) (file : StrategyFile)
    (found : Result SearchError Found) (k : Text)
    → mem_text k (stored_props file) ≡ true
    → mem_text k (covered strategy) ≡ true
    → mem_text k (stored_props (store_found args holds strategy file found).0) ≡ true
unfolding store_found store_strategy
store_found-keeps args strategy file (raise e) k kept old = kept
store_found-keeps args strategy file (ok (steps, failures)) k kept old =
    elim (Bool-cases args.no_store) [
      | inl not_stored ↦ rw (store_found, not_stored) kept
      | inr stored ↦
          rw
            (
              store_found,
              stored,
              stored_props-encode_all (strategy ++ steps),
              covered-append strategy steps,
              mem_text-append k (covered strategy) (covered steps),
              old,
            )
            refl
    ]

construct_from-keeps :
    (env : Solvers) (args : ExploreArgs) (step : ℕ) (strategy : List Strategy)
    (not_done : List Text) (file : StrategyFile) (k : Text)
    → mem_text k (stored_props file) ≡ true
    → mem_text k (covered strategy) ≡ true
    → mem_text k (stored_props (construct_from env args holds step strategy not_done file).0) ≡ true
unfolding construct_from
construct_from-keeps env args step strategy [] file k kept old = kept
construct_from-keeps env args step strategy (p ∷ not_done) file k kept old =
    store_found-keeps args strategy file (search env args.hard step (p ∷ not_done)) k kept old

construct_strategy-keeps :
    (env : Solvers) (args : ExploreArgs) (step : ℕ) (props : List Text) (file : StrategyFile)
    (k : Text)
    → args.fresh ≡ false
    → mem_text k (stored_props file) ≡ true
    → mem_text k (stored_props (construct_strategy env args holds step props file).0) ≡ true
unfolding construct_strategy
construct_strategy-keeps env args step props file k not_fresh kept =
    elim (Result-cases (load_strategy false file)) [
      | inr (e, failed) ↦ rw (construct_strategy, not_fresh, failed) kept
      | inl (loaded, read) ↦
          let strategy = strategy_or_empty loaded in
          let old : mem_text k (covered strategy) ≡ true = rw read at kept in
          rw (construct_strategy, not_fresh, read)
            (construct_from-keeps env args step strategy (missing_from strategy props) file k kept
              old)
    ]

with_file-keeps :
    (step : ℕ) (file : StrategyFile) (files : Files) (n : ℕ) (k : Text)
    → (mem_text k (stored_props (files step)) ≡ true → mem_text k (stored_props file) ≡ true)
    → mem_text k (stored_props (files n)) ≡ true
    → mem_text k (stored_props (with_file step file files n)) ≡ true
unfolding with_file
with_file-keeps step file files n k better kept = elim (Bool-cases (n == step)) [
  | inl same ↦
      let equal : n ≡ step = (==_iff n step).0 same in
      rw (with_file, same) (better (rw equal at kept))
  | inr other ↦ rw (with_file, other) kept
]

module _ (env : Solvers) (args : ExploreArgs) (loop : LoopArgs) (not_fresh : args.fresh ≡ false)
    (n : ℕ) (k : Text) where
  explore_from-keeps :
      (step : ℕ) (by_step : List (List Text)) (failures : List Text) (files : Files)
      → mem_text k (stored_props (files n)) ≡ true
      → mem_text k
          (stored_props ((explore_from env args loop holds step by_step failures files).0 n))
        ≡ true
  unfolding explore_from
  explore_from-keeps step [] failures files kept = kept
  explore_from-keeps step (props ∷ by_step) failures files kept =
      let constructed = construct_strategy env args holds step props (files step) in
      let files' = with_file step constructed.0 files in
      let kept' =
        with_file-keeps step constructed.0 files n k
          (construct_strategy-keeps env args step props (files step) k not_fresh) kept in
      elim (Bool-cases (ltb step loop.start)) [
        | inl early ↦
            rw (explore_from, early) (explore_from-keeps (suc step) by_step failures files kept)
        | inr due ↦ elim (Result-cases constructed.1) [
          | inr (e, failed) ↦ rw (explore_from, due, failed) kept'
          | inl (c, went) ↦ elim (Result-cases (check_run env loop c)) [
            | inr (e, failed) ↦ rw (explore_from, due, went, failed) kept'
            | inl (u, checked) ↦
                rw (explore_from, due, went, checked)
                  (explore_from-keeps (suc step) by_step (failures ++ c.failures) files' kept')
          ]
        ]
      ]

  -- Without `--fresh`, and when files can be saved, a property that a stored strategy covers is
  -- covered by the stored strategy of that step afterwards, however the search went and wherever it
  -- broke off.
  pub explore_mode-keeps :
      (by_step : List (List Text)) (files : Files)
      → mem_text k (stored_props (files n)) ≡ true
      → mem_text k (stored_props ((explore_mode env args loop holds by_step files).0 n)) ≡ true
  unfolding explore_mode
  explore_mode-keeps by_step files kept = explore_from-keeps 0 by_step [] files kept
