-- ===== src/Tests/Conductor.antt =====
-- Property names, steps and strategies.
use emucpu.Prelude.{ℕ, max, length, List, [], ◌∷◌, none, some, ok, ◌≡◌}
use mathlib.Core.List.{Perm}
use emucpu.Prelude.Int.{pos}
use emucpu.Conductor.Process.{ProcessResult, finished}
use emucpu.Prelude.Text.{Text, codes}
use emucpu.Conductor.NameTree.{Trees, split_by_prefixes, find_all}
use emucpu.Conductor.NameTree.Leaves.{split_by_prefixes-perm}
use emucpu.Conductor.Steps.{Strategy, group_by_step}
use emucpu.Conductor.Steps.Grouping.{names_at, of_step, steps_end, end_of, group_by_step-of_step}

abbrev names : List Text
names = codes "Step_Mem_NoErr" ∷ codes "StepFoo" ∷ codes "live_x" ∷ []

split_by_prefixes-perm_example :
    (ts : Trees) × (split_by_prefixes names ≡ ok ts) × Perm (find_all ts) names
split_by_prefixes-perm_example = split_by_prefixes-perm names (λ e. cc, (λ e. cc, (λ e. cc, tt)))

abbrev stepped : List (ℕ × Text)
stepped = (1, codes "a") ∷ (0, codes "b") ∷ (1, codes "c") ∷ []

group_by_step-of_step_example :
    (names_at (group_by_step stepped (some 3)) 1 ≡ of_step 1 stepped)
    × (length (group_by_step stepped (some 3)) ≡ max (steps_end stepped) (end_of (some 3)))
group_by_step-of_step_example = group_by_step-of_step stepped (some 3) 1

abbrev proved : ProcessResult
proved = record {
  code = some (pos 20);
  reason = finished;
  max_mem = 1000;
  dt = 50;
  stdout = none;
  stderr = some (codes "[INFO ] k-induction proofed in depth 7\n");
}

abbrev strategies : List Strategy
strategies =
    record { step = 0; props = codes "b" ∷ []; config = codes "rIC3 -e kind"; procres = proved }
    ∷ record { step = 1; props = codes "a" ∷ []; config = codes "rIC3"; procres = proved }
    ∷ []
