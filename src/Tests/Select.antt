-- ===== src/Tests/Select.antt =====
-- Choosing properties, and exploring all steps.
use emucpu.Prelude.{
  ℕ, true, false, List, [], ◌∷◌, ◌++◌, length, none, some, map_ok, arith, ◌≡◌, refl,
}
use mathlib.Core.List.{Perm}
use emucpu.Prelude.Int.{pos}
use emucpu.Prelude.Text.{Text, codes, text_eq}
use emucpu.Prelude.Dict.{mem_text}
use emucpu.Conductor.Process.{ProcessResult, finished}
use emucpu.Conductor.Steps.{covered}
use emucpu.Conductor.Steps.Grouping.{names_at, of_step}
use emucpu.Conductor.Stored.{holds, load_strategy, encode_all}
use emucpu.Conductor.Search.{Solvers}
use emucpu.Conductor.Explore.{ExploreArgs}
use emucpu.Conductor.Explore.Mode.{Files, LoopArgs, explore_mode}
use emucpu.Conductor.Explore.Mode.Keeps.{stored_props, explore_mode-keeps}
use emucpu.Conductor.Select.{selection_of}
use emucpu.Conductor.Select.Steps.{selection_of-perm}

abbrev wanted : List (ℕ × Text)
wanted = (1, codes "a") ∷ (0, codes "MType_Div_Data") ∷ (1, codes "b") ∷ []

selection_of-perm_example :
    (length (selection_of 2 wanted).by_step ≡ 3)
    × (length (selection_of 2 wanted).skipped_by_step ≡ 3)
    × Perm
        (names_at (selection_of 2 wanted).by_step 1
          ++ names_at (selection_of 2 wanted).skipped_by_step 1)
        (of_step 1 wanted)
selection_of-perm_example = selection_of-perm 2 wanted 1 (omega arith)

abbrev outcome : ProcessResult
outcome = record {
  code = some (pos 20);
  reason = finished;
  max_mem = 1000;
  dt = 50;
  stdout = some (codes "");
  stderr = none;
}

abbrev solvers : Solvers
solvers = record {
  aig_manip = λ step props. some (pos 0);
  shell = λ config limit step props. outcome;
}

abbrev files : Files
files step = holds (
    encode_all
      (record { step = 0; props = codes "b" ∷ []; config = codes "rIC3"; procres = outcome } ∷ []))

abbrev args : ExploreArgs
args = record { fresh = false; no_store = false; hard = true }

abbrev loop : LoopArgs
loop = record { start = 0; no_run = true }

explore_mode-keeps_example :
    mem_text (codes "b") (
      stored_props
        ((explore_mode solvers args loop holds ((codes "a" ∷ codes "b" ∷ []) ∷ []) files).0 0))
    ≡ true
unfolding load_strategy encode_all map_ok mem_text covered text_eq
explore_mode-keeps_example =
    explore_mode-keeps solvers args loop refl 0 (codes "b") ((codes "a" ∷ codes "b" ∷ []) ∷ [])
      files refl
