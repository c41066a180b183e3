-- ===== src/Conductor/Search/Fuel.antt =====
-- The fuel of the search is enough.
use emucpu.Prelude.{ℕ, Bool, List, [], ◌∷◌, raise, arith, ◌≡◌, ◌≢◌, refl, Bool-cases, inl, inr}
use emucpu.Prelude.Text.{Text}
use emucpu.Conductor.NameTree.{Trees, find_all}
use emucpu.Conductor.Search.{
  out_of_fuel, has_code, Solvers, prepare_aiger, explore, race, kind_engine, engines, build_one,
  build_for, build_on, build_strategy_rec,
}
use emucpu.Conductor.Search.Single.{explore_one-conclude, in_group-explore_one}
use emucpu.Conductor.Search.Crash.{build_strategy_rec-awaited_twice}

module _ (env : Solvers) (difficult : Bool) (step : ℕ) where
  build_one-out_of_fuel :
      (p : Text) (failures : List (ℕ × Text))
      → build_one env difficult step p failures ≢ raise out_of_fuel
  unfolding build_one explore prepare_aiger race engines
  build_one-out_of_fuel p failures = elim (Bool-cases (has_code 0 (env.aig_manip step (p ∷ [])))) [
    | inr unprepared ↦ rw (build_one, explore, prepare_aiger, unprepared) (λ e. cc)
    | inl prepared ↦ elim (Bool-cases difficult) [
      | inr easy ↦ rw (build_one, explore, prepare_aiger, prepared, easy) (λ e. cc)
      | inl hard ↦
          rw
            (
              build_one,
              explore,
              prepare_aiger,
              prepared,
              hard,
              in_group-explore_one env 1800000 step (p ∷ []) kind_engine,
              explore_one-conclude env step p failures,
            )
            (λ e. cc)
    ]
  ]

  -- The search never runs out of fuel, whatever the tree.
  pub build_strategy_rec-out_of_fuel :
      (ts : Trees) (failures : List (ℕ × Text))
      → build_strategy_rec env difficult step ts failures ≢ raise out_of_fuel
  unfolding build_strategy_rec build_on build_for
  build_strategy_rec-out_of_fuel ts failures = by_props (find_all ts) refl
    where
      by_props :
          (props : List Text)
          → find_all ts ≡ props
          → build_strategy_rec env difficult step ts failures ≢ raise out_of_fuel
      by_props [] e = rw (build_on, e) (λ x. cc)
      by_props (p ∷ []) e = rw (build_on, e) (build_one-out_of_fuel p failures)
      by_props (p ∷ q ∷ props) e =
          rw (build_strategy_rec-awaited_twice env difficult step ts failures (rw e (omega arith)))
            (λ x. cc)
