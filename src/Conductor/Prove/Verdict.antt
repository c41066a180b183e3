-- ===== src/Conductor/Prove/Verdict.antt =====
-- What an exit of prove mode says.
use emucpu.Prelude.{
  ℕ, true, false, leb, map_ok-cons, if◌then◌else◌, if_ind, List, [], ◌∷◌, All, any, map, Option,
  none, some, Result, ok, ◌>>=◌, map_ok, bind-eq-ok, arith, ◌≡◌, Bool-cases, Option-cases, inl, inr,
}
use emucpu.Prelude.Text.{Text}
use emucpu.Prelude.Dict.{mem_text, mem_text-append}
use emucpu.Conductor.Process.{ProcessResult}
use emucpu.Conductor.Steps.{Strategy, covered, check_complete}
use emucpu.Conductor.Steps.Covered.{check_complete-covered}
use emucpu.Conductor.Stored.{StrategyFile}
use emucpu.Conductor.Search.{SearchError, Solvers, has_code, prepare_aiger}
use emucpu.Conductor.Prove.{
  config_of, insert_slower, slowest_first, configured, prove, run_strategy, ProveArgs, collect,
  is_unproved, run_all_strategies, after_check, prove_mode,
}

-- The solver, run now as for this proof step, has proved it.
abbrev pub IsProvedNow : Solvers → Strategy → Type 0
IsProvedNow env s =
    (conf : Text) × (config_of s ≡ ok conf)
    × (has_code 20 (env.shell conf none s.step s.props).code ≡ true)

All-insert_slower {ℓ} :
    (P : Strategy → Type ℓ) (s : Strategy) (ts : List Strategy)
    → All P (insert_slower s ts)
    → P s × All P ts
unfolding insert_slower
All-insert_slower P s [] h = h
All-insert_slower P s (t ∷ ts) h =
    if_ind (λ l. All P l → P s × (P t × All P ts)) (leb t.procres.dt s.procres.dt) {x = s ∷ t ∷ ts}
      {y = t ∷ insert_slower s ts} (λ _ h. h)
      (λ _ h. let (first, rest) = All-insert_slower P s ts h.1 in (first, (h.0, rest))) h

All-slowest_first {ℓ} :
    (P : Strategy → Type ℓ) (ss : List Strategy) → All P (slowest_first ss) → All P ss
unfolding slowest_first
All-slowest_first P [] h = h
All-slowest_first P (s ∷ ss) h =
    let (first, rest) = All-insert_slower P s (slowest_first ss) h in
    (first, All-slowest_first P ss rest)

prove-result :
    (env : Solvers) (conf : Text) (s : Strategy) (r : ProcessResult × Strategy)
    → prove env (conf, s) ≡ ok r
    → r.0 ≡ env.shell conf none s.step s.props
unfolding prove
prove-result env conf s r went =
    let (u, prepared, ran) =
      bind-eq-ok (prepare_aiger env s.step s.props)
        (λ _. ok (env.shell conf none s.step s.props, s)) went in
    cc

item-IsProvedNow :
    (env : Solvers) (s : Strategy) {c : Text × Strategy} {r : ProcessResult × Strategy}
    → configured s ≡ ok c
    → prove env c ≡ ok r
    → is_unproved r ≡ false
    → IsProvedNow env s
unfolding configured
item-IsProvedNow env s {r} here ran good =
    let next : Text → Result SearchError (Text × Strategy) = λ conf. ok (conf, s) in
    let (conf, read, paired) = bind-eq-ok (config_of s) next here in
    let ran' : prove env (conf, s) ≡ ok r = cc in
    let shown = prove-result env conf s r ran' in
    let proved : has_code 20 r.0.code ≡ true = ground arith in (conf, read, rw shown at proved)

runs-IsProvedNow :
    (env : Solvers) (ss : List Strategy) (confs : List (Text × Strategy))
    (results : List (ProcessResult × Strategy))
    → map_ok configured ss ≡ ok confs
    → map_ok (prove env) confs ≡ ok results
    → any is_unproved results ≡ false
    → All (IsProvedNow env) ss
runs-IsProvedNow env [] confs results went ran good = tt
runs-IsProvedNow env (s ∷ ss) confs results went ran good =
    let (c, cs, here, there, split) = map_ok-cons configured s ss went in
    let (r, rs, ran_here, ran_there, results_split) =
      map_ok-cons (prove env) c cs (rw split at ran) in
    let fine : any is_unproved (r ∷ rs) ≡ false = rw results_split at good in
    let both : (is_unproved r ≡ false) × (any is_unproved rs ≡ false) = ground arith in
    (
      item-IsProvedNow env s here ran_here both.0,
      runs-IsProvedNow env ss cs rs there ran_there both.1,
    )

run_strategy-IsProvedNow :
    (env : Solvers) (ss : List Strategy) (results : List (ProcessResult × Strategy))
    → run_strategy env ss ≡ ok results
    → any is_unproved results ≡ false
    → All (IsProvedNow env) ss
unfolding run_strategy
run_strategy-IsProvedNow env ss results ran good =
    let (confs, read, run) =
      bind-eq-ok (map_ok configured (slowest_first ss)) (map_ok (prove env)) ran in
    All-slowest_first (IsProvedNow env) ss
      (runs-IsProvedNow env (slowest_first ss) confs results read run good)

verdict_none :
    (env : Solvers) (args : ProveArgs) (ss : List Strategy)
    → args.by_step ≡ false
    → run_all_strategies env args ss ≡ ok none
    → All (IsProvedNow env) ss
unfolding run_all_strategies
verdict_none env args ss whole ended =
    let verdict : List (ProcessResult × Strategy) → Result SearchError (Option ℕ) =
      λ results. ok (if any is_unproved results then some 1 else none) in
    let ended' : run_strategy env ss >>= verdict ≡ ok none =
      rw (run_all_strategies, whole) at ended in
    let (results, ran, said) = bind-eq-ok (run_strategy env ss) verdict ended' in
    run_strategy-IsProvedNow env ss results ran (ground arith)

covered_by {ℓ} :
    (P : Strategy → Type ℓ) (k : Text) (ss : List Strategy)
    → All P ss
    → mem_text k (covered ss) ≡ true
    → (s : Strategy) × (mem_text k s.props ≡ true) × P s
unfolding covered mem_text
covered_by P k [] h there = absurd cc
covered_by P k (s ∷ ss) (p, h) there = elim (Bool-cases (mem_text k s.props)) [
  | inl here ↦ (s, here, p)
  | inr elsewhere ↦ covered_by P k ss h (ground (arith, mem_text-append k s.props (covered ss)))
]

-- When prove mode with `--check-complete` and without `--by-step` returns without an exit code,
-- every property that was to be proved belongs to a proof step for which the solver, run now with
-- the step's configuration, has exited with code 20.
pub prove_mode-IsProvedNow :
    (env : Solvers) (args : ProveArgs) (files : ℕ → StrategyFile) (all_props : List (ℕ × Text))
    (by_step : List (List Text)) (k : Text)
    → args.by_step ≡ false
    → args.complete ≡ true
    → prove_mode env args files all_props by_step ≡ ok none
    → mem_text k (map (λ p. p.1) all_props) ≡ true
    → (s : Strategy) × (mem_text k s.props ≡ true) × IsProvedNow env s
unfolding prove_mode after_check
prove_mode-IsProvedNow env args files all_props by_step k whole checked ended wanted =
    let next : List Strategy → Result SearchError (Option ℕ) =
      λ ss. after_check env args ss (if args.complete then check_complete all_props ss else none) in
    let (ss, loaded, after) = bind-eq-ok (collect env args files 0 by_step) next ended in
    let after' : after_check env args ss (check_complete all_props ss) ≡ ok none =
      rw checked at after in
    elim (Option-cases (check_complete all_props ss)) [
      | inr (code, lacking) ↦
          let clash : ok (some code) ≡ ok none = rw lacking at after' in absurd cc
      | inl complete ↦
          covered_by (IsProvedNow env) k ss (verdict_none env args ss whole (rw complete at after'))
            ((check_complete-covered all_props ss).0 complete k wanted)
    ]
