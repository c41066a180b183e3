-- ===== src/Tests/Prove.antt =====
-- Running a stored strategy.
use emucpu.Prelude.{ℕ, Bool, true, false, not, List, [], ◌∷◌, some, ok, map_ok, ◌≡◌, none, refl}
use emucpu.Prelude.Int.{pos}
use emucpu.Prelude.Text.{Text, codes, text_eq}
use emucpu.Prelude.Dict.{mem_text}
use emucpu.Conductor.Process.{ProcessResult, finished}
use emucpu.Conductor.Steps.{Strategy}
use emucpu.Conductor.Stored.{StrategyFile, holds, encode_all}
use emucpu.Conductor.Search.{Solvers}
use emucpu.Conductor.Prove.{ProveArgs, config_of, prove_mode}
use emucpu.Conductor.Prove.Verdict.{IsProvedNow, prove_mode-IsProvedNow}

abbrev outcome : ℕ → ProcessResult
outcome code = record {
  code = some (pos code);
  reason = finished;
  max_mem = 1000;
  dt = 50;
  stdout = some (codes "");
  stderr = some (codes "x\n[INFO ] k-induction proofed in depth 7\n");
}

abbrev by_induction : Strategy
by_induction = record {
  step = 0;
  props = codes "a" ∷ [];
  config = codes "rIC3 -e kind --no-preproc";
  procres = outcome 20;
}

config_of_runs : config_of by_induction ≡ ok (codes "rIC3 -e kind --no-preproc --start 7")
unfolding config_of
config_of_runs = refl

abbrev solvers : Solvers
solvers = record {
  aig_manip = λ step props. some (pos 0);
  shell = λ config limit step props. outcome 20;
}

abbrev args : Bool → ProveArgs
args by_step = record { fresh = false; by_step = by_step; complete = not by_step; start = 0 }

abbrev files : ℕ → StrategyFile
files step = holds (encode_all (by_induction ∷ []))

abbrev wanted : List (ℕ × Text)
wanted = (0, codes "a") ∷ []

prove_mode-IsProvedNow_example :
    (s : Strategy) × (mem_text (codes "a") s.props ≡ true) × IsProvedNow solvers s
unfolding prove_mode encode_all map_ok mem_text text_eq
prove_mode-IsProvedNow_example =
    prove_mode-IsProvedNow solvers (args false) files wanted ((codes "a" ∷ []) ∷ []) (codes "a")
      refl refl refl refl

-- The solver answers 10, a counterexample.
abbrev refuting : Solvers
refuting = record {
  aig_manip = λ step props. some (pos 0);
  shell = λ config limit step props. outcome 10;
}

refuted_by_step :
    (prove_mode refuting (args true) files wanted ((codes "a" ∷ []) ∷ []) ≡ ok none)
    × (prove_mode refuting (args false) files wanted ((codes "a" ∷ []) ∷ []) ≡ ok (some 1))
unfolding prove_mode encode_all map_ok mem_text text_eq
refuted_by_step = (refl, refl)
