-- ===== src/Conductor/Explore/Hard.antt =====
-- What `construct_strategy` comes to, with `--hard` and without.
use emucpu.Prelude.{
  ℕ, Bool, true, false, ◌||◌, ◌&&◌, List, [], ◌∷◌, ◌++◌, map, flatten, Option, ok, arith, ◌≡◌, refl,
  sym, ap, Bool-cases, inl, inr,
}
use mathlib.Core.List.{append_assoc}
use emucpu.Prelude.Text.{Text, text_eq, text_eq_iff}
use emucpu.Prelude.Dict.{mem_text, mem_text-append}
use emucpu.Conductor.Steps.{Strategy, covered, missing_from}
use emucpu.Conductor.Steps.Covered.{missing_from_lem}
use emucpu.Conductor.Stored.{Json, StrategyFile, load_strategy, store_strategy}
use emucpu.Conductor.Stored.RoundTrip.{decode_all-encode_all}
use emucpu.Conductor.Search.{Solvers}
use emucpu.Conductor.Search.Single.{Prepares, is_proved, proof_of, failure_of, gather_hard}
use emucpu.Conductor.Explore.{
  ExploreArgs, Constructed, strategy_or_empty, search, store_found, construct_from,
  construct_strategy, new_strategy,
}

pub covered-append : (a b : List Strategy) → covered (a ++ b) ≡ covered a ++ covered b
unfolding covered
covered-append [] b = refl
covered-append (s ∷ a) b =
    rw (covered-append a b, sym (append_assoc s.props (covered a) (covered b))) refl

mem_text-proof_of :
    (env : Solvers) (step : ℕ) (k p : Text)
    → mem_text k (covered (proof_of env step p)) ≡ (text_eq p k && is_proved env step p)
unfolding covered mem_text
mem_text-proof_of env step k p = elim (Bool-cases (is_proved env step p)) [
  | inl proved ↦ rw proved (ground arith)
  | inr unproved ↦ rw unproved (ground arith)
]

proved_there :
    (env : Solvers) (step : ℕ) (k p : Text)
    → (text_eq p k && is_proved env step p) ≡ (text_eq p k && is_proved env step k)
proved_there env step k p = elim (Bool-cases (text_eq p k)) [
  | inl same ↦ ap (λ x. text_eq p k && is_proved env step x) ((text_eq_iff p k).0 same)
  | inr other ↦ rw other refl
]

mem_text-proofs :
    (env : Solvers) (step : ℕ) (k : Text) (ps : List Text)
    → mem_text k (covered (flatten (map (proof_of env step) ps)))
      ≡ (mem_text k ps && is_proved env step k)
unfolding covered mem_text
mem_text-proofs env step k [] = refl
mem_text-proofs env step k (p ∷ ps) =
    rw
      (
        covered-append (proof_of env step p) (flatten (map (proof_of env step) ps)),
        mem_text-append k (covered (proof_of env step p))
            (covered (flatten (map (proof_of env step) ps))),
      )
      (ground (
        arith,
        mem_text-proof_of env step k p,
        proved_there env step k p,
        mem_text-proofs env step k ps,
      ))

returned :
    (no_store : Bool) (save : Json → StrategyFile) (strategy : List Strategy) (file : StrategyFile)
    → (store_strategy no_store save strategy file).1 ≡ ok strategy
unfolding store_strategy
returned true save strategy file = decode_all-encode_all strategy
returned false save strategy file = decode_all-encode_all strategy

store_found-ok :
    (args : ExploreArgs) (save : Json → StrategyFile) (old steps : List Strategy)
    (file : StrategyFile) (failures : List (ℕ × Text))
    → (store_found args save old file (ok (steps, failures))).1
      ≡ ok (new_strategy failures (old ++ steps))
unfolding store_found
store_found-ok args save old steps file failures =
    rw (store_found, returned args.no_store save (old ++ steps) file) refl

store_found_hard :
    (env : Solvers) (args : ExploreArgs) (save : Json → StrategyFile) (step : ℕ)
    (old : List Strategy) (not_done : List Text) (file : StrategyFile)
    → args.hard ≡ true
    → Prepares env step
    → (store_found args save old file (search env args.hard step not_done)).1
      ≡ ok (
          new_strategy
            (flatten (map (failure_of env step) not_done))
            (old ++ flatten (map (proof_of env step) not_done)))
unfolding store_found search store_strategy
store_found_hard env args save step old not_done file hard prepares =
    rw (hard, gather_hard env step not_done [] prepares)
      (store_found-ok args save old (flatten (map (proof_of env step) not_done)) file
        (flatten (map (failure_of env step) not_done)))

construct_from_hard :
    (env : Solvers) (args : ExploreArgs) (save : Json → StrategyFile) (step : ℕ)
    (old : List Strategy) (not_done : List Text) (file : StrategyFile)
    → args.hard ≡ true
    → Prepares env step
    → (c : Constructed) × ((construct_from env args save step old not_done file).1 ≡ ok c)
      × ((k : Text)
          → mem_text k (covered c.strategy)
            ≡ (mem_text k (covered old) || (mem_text k not_done && is_proved env step k)))
unfolding construct_from mem_text
construct_from_hard env args save step old [] file hard prepares =
    (record { new = false; strategy = old; failures = [] }, refl, λ k. ground arith)
construct_from_hard env args save step old (p ∷ not_done) file hard prepares =
    let proofs = flatten (map (proof_of env step) (p ∷ not_done)) in
    let failures = flatten (map (failure_of env step) (p ∷ not_done)) in
    (
      new_strategy failures (old ++ proofs),
      store_found_hard env args save step old (p ∷ not_done) file hard prepares,
      λ k.
          rw (covered-append old proofs, mem_text-append k (covered old) (covered proofs))
            (ap (λ x. mem_text k (covered old) || x) (mem_text-proofs env step k (p ∷ not_done))),
    )

-- With `--hard`, and aig-manip preparing every property, a strategy for a step is constructed
-- whatever the solvers say, and it covers the properties that the stored one covers and those of
-- the step for which the solver exits with code 20, and no others.
pub construct_strategy-hard :
    (env : Solvers) (args : ExploreArgs) (save : Json → StrategyFile) (step : ℕ) (props : List Text)
    (file : StrategyFile) (loaded : Option (List Strategy))
    → args.hard ≡ true
    → Prepares env step
    → load_strategy args.fresh file ≡ ok loaded
    → (c : Constructed) × ((construct_strategy env args save step props file).1 ≡ ok c)
      × ((k : Text)
          → mem_text k (covered c.strategy) ≡ (
              mem_text k (covered (strategy_or_empty loaded))
              || (mem_text k props && is_proved env step k)))
unfolding construct_strategy
construct_strategy-hard env args save step props file loaded hard prepares read =
    let old = strategy_or_empty loaded in
    let (c, done, covers) =
      construct_from_hard env args save step old (missing_from old props) file hard prepares in
    (
      c,
      rw (construct_strategy, read) done,
      λ k. ground (arith, covers k, (missing_from_lem old props).0 k),
    )
