-- ===== src/Conductor/Search/Crash.antt =====
-- The search on several properties.
use emucpu.Prelude.{
  ℕ, zero, suc, ◌≤◌, ◌<◌, Bool, List, [], ◌∷◌, length, Result, raise, arith, ◌≡◌, refl, ◌∙◌,
}
use mathlib.Core.List.{append-nil}
use emucpu.Prelude.Text.{Text}
use emucpu.Conductor.NameTree.{Tree, leaf, node, Trees, nil, cons, find_in, find_all}
use emucpu.Conductor.Search.{
  SearchError, awaited_twice, exception_group, race, Solvers, Found, inside, build_for, build_on,
  size_in, size_all, build_strategy_rec,
}

-- A tree of one list is as the list.
find_all-single : (ts : Trees) → find_all (cons (node ts) nil) ≡ find_all ts
unfolding find_all find_in
find_all-single ts = append-nil (find_all ts)

module _ (env : Solvers) (difficult : Bool) (step : ℕ) where
  build_for-single :
      (build : Trees → List (ℕ × Text) → Result SearchError Found) (props : List Text) (t : Tree)
      (failures : List (ℕ × Text))
      → 2 ≤ length props
      → build_for env difficult step build props (cons t nil) failures ≡ build (inside t) failures
  unfolding build_for
  build_for-single build [] t failures h = absurd (omega arith)
  build_for-single build (p ∷ []) t failures h = absurd (omega arith)
  build_for-single build (p ∷ q ∷ props) t failures h = refl

  build_for-several :
      (build : Trees → List (ℕ × Text) → Result SearchError Found) (props : List Text) (t u : Tree)
      (ts : Trees) (failures : List (ℕ × Text))
      → 2 ≤ length props
      → build_for env difficult step build props (cons t (cons u ts)) failures
        ≡ raise (exception_group awaited_twice)
  unfolding build_for race
  build_for-several build [] t u ts failures h = absurd (omega arith)
  build_for-several build (p ∷ []) t u ts failures h = absurd (omega arith)
  build_for-several build (p ∷ q ∷ props) t u ts failures h = refl

  build_on-awaited_twice :
      (fuel : ℕ) (ts : Trees) (failures : List (ℕ × Text))
      → size_all ts < fuel
      → 2 ≤ length (find_all ts)
      → build_on env difficult step fuel ts failures ≡ raise (exception_group awaited_twice)
  unfolding build_on size_all size_in find_all find_in inside
  build_on-awaited_twice zero ts failures l h = absurd (omega arith)
  build_on-awaited_twice (suc fuel) nil failures l h = absurd (omega arith)
  build_on-awaited_twice (suc fuel) (cons (leaf p) nil) failures l h = absurd (omega arith)
  build_on-awaited_twice (suc fuel) (cons (node us) nil) failures l h =
      let single = find_all-single us in
      let shorter : 2 ≤ length (find_all us) = rw (append-nil (find_all us)) at h in
      build_for-single (build_on env difficult step fuel) (find_all (cons (node us) nil)) (node us)
        failures h
      ∙ build_on-awaited_twice fuel us failures (omega arith) shorter
  build_on-awaited_twice (suc fuel) (cons t (cons u ts)) failures l h =
      build_for-several (build_on env difficult step fuel) (find_all (cons t (cons u ts))) t u ts
        failures h

  -- On a tree with two properties or more the search ends in an ExceptionGroup around a
  -- RuntimeError: wherever it is to choose between proving them as a block and splitting them, the
  -- race awaits one coroutine twice.
  pub build_strategy_rec-awaited_twice :
      (ts : Trees) (failures : List (ℕ × Text))
      → 2 ≤ length (find_all ts)
      → build_strategy_rec env difficult step ts failures ≡ raise (exception_group awaited_twice)
  unfolding build_strategy_rec
  build_strategy_rec-awaited_twice ts failures h =
      build_on-awaited_twice (suc (size_all ts)) ts failures (omega arith) h
