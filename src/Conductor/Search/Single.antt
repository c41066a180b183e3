-- ===== src/Conductor/Search/Single.antt =====
-- The search on one property.
use emucpu.Prelude.{
  some, ℕ, Bool, true, false, ◌||◌, if◌then◌else◌, List, [], ◌∷◌, ◌++◌, map, flatten, ok, raise,
  ◌>>=◌, ◌≡◌, refl, Bool-cases, arith, inl, inr,
}
use mathlib.Core.List.{append-nil, append_assoc}
use emucpu.Prelude.Text.{Text}
use emucpu.Conductor.Process.{ProcessResult}
use emucpu.Conductor.Steps.{Strategy}
use emucpu.Conductor.NameTree.{leaf, Trees, nil, cons, find_all}
use emucpu.Conductor.Search.{
  awaited_twice, exception_group, in_group, race, Solvers, has_code, prepare_aiger, explore_one,
  explore, kind_engine, engines, strategy_of, conclude_one, build_one, gather, build_for, build_on,
  build_strategy_rec,
}

-- The run of the one solver that is tried on a hard property, and whether it has proved it or
-- refuted it.
abbrev pub hard_run : Solvers → ℕ → Text → ProcessResult
hard_run env step p = env.shell kind_engine (some 1800000) step (p ∷ [])

abbrev pub is_proved : Solvers → ℕ → Text → Bool
is_proved env step p = has_code 20 (hard_run env step p).code

abbrev pub is_settled : Solvers → ℕ → Text → Bool
is_settled env step p = has_code 10 (hard_run env step p).code || is_proved env step p

-- aig-manip prepares every property.
abbrev pub Prepares : Solvers → ℕ → Type 0
Prepares env step = (props : List Text) → has_code 0 (env.aig_manip step props) ≡ true

abbrev pub proof_of : Solvers → ℕ → Text → List Strategy
proof_of env step p =
    if is_proved env step p
    then strategy_of step (p ∷ []) (kind_engine, hard_run env step p) ∷ []
    else []

abbrev pub failure_of : Solvers → ℕ → Text → List (ℕ × Text)
failure_of env step p = if is_settled env step p then [] else (step, p) ∷ []

pub explore_one-conclude :
    (env : Solvers) (step : ℕ) (p : Text) (failures : List (ℕ × Text))
    → (explore_one env 1800000 step (p ∷ []) kind_engine >>= λ res.
        ok (conclude_one step p failures res))
      ≡ ok (proof_of env step p, failures ++ failure_of env step p)
unfolding explore_one conclude_one
explore_one-conclude env step p failures = elim (Bool-cases (is_proved env step p)) [
  | inl proved ↦ elim (Bool-cases (has_code 10 (hard_run env step p).code)) [
    | inl refuted ↦ rw (explore_one, refuted, conclude_one, proved, append-nil failures) refl
    | inr unrefuted ↦
        rw (explore_one, unrefuted, proved, conclude_one, proved, append-nil failures) refl
  ]
  | inr unproved ↦ elim (Bool-cases (has_code 10 (hard_run env step p).code)) [
    | inl refuted ↦ rw (explore_one, refuted, conclude_one, unproved, append-nil failures) refl
    | inr unrefuted ↦ rw (explore_one, unrefuted, unproved) refl
  ]
]

-- Exploring with one engine raises nothing of its own, so that there is no group.
pub in_group-explore_one :
    (env : Solvers) (limit step : ℕ) (props : List Text) (engine_config : Text)
    → in_group (explore_one env limit step props engine_config)
      ≡ explore_one env limit step props engine_config
unfolding explore_one
in_group-explore_one env limit step props engine_config = ground arith

build_hard :
    (env : Solvers) (step : ℕ) (p : Text) (failures : List (ℕ × Text))
    → Prepares env step
    → build_strategy_rec env true step (cons (leaf p) nil) failures
      ≡ ok (proof_of env step p, failures ++ failure_of env step p)
unfolding build_strategy_rec build_on build_for build_one explore prepare_aiger engines race
    find_all
build_hard env step p failures prepares =
    rw (prepares (p ∷ []), in_group-explore_one env 1800000 step (p ∷ []) kind_engine)
      (explore_one-conclude env step p failures)

-- With `--hard` the search settles each property by itself.
pub gather_hard :
    (env : Solvers) (step : ℕ) (ps : List Text) (failures : List (ℕ × Text))
    → Prepares env step
    → gather (build_strategy_rec env true step) (map (λ p. cons (leaf p) nil) ps) failures
      ≡ ok
          (flatten (map (proof_of env step) ps), failures ++ flatten (map (failure_of env step) ps))
unfolding gather
gather_hard env step [] failures prepares = rw (append-nil failures) refl
gather_hard env step (p ∷ ps) failures prepares =
    rw
      (
        build_hard env step p failures prepares,
        gather_hard env step ps (failures ++ failure_of env step p) prepares,
        append_assoc failures (failure_of env step p) (flatten (map (failure_of env step) ps)),
      )
      refl

-- Without it even one property is too much: two engines race.
pub build_easy :
    (env : Solvers) (step : ℕ) (ts : Trees) (p : Text) (failures : List (ℕ × Text))
    → find_all ts ≡ p ∷ []
    → Prepares env step
    → build_strategy_rec env false step ts failures ≡ raise (exception_group awaited_twice)
unfolding build_strategy_rec build_on build_for build_one explore prepare_aiger engines race
build_easy env step ts p failures e prepares = rw (build_on, e, prepares (p ∷ [])) refl
