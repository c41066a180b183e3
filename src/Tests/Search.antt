-- ===== src/Tests/Search.antt =====
-- Searching and storing strategies.
use emucpu.Prelude.{
  ℕ, Bool, true, false, ◌||◌, ◌&&◌, if◌then◌else◌, List, [], ◌∷◌, none, some, ok, raise, map_ok,
  ◌≡◌, refl,
}
use emucpu.Prelude.Int.{pos}
use emucpu.Prelude.Text.{Text, codes, text_eq}
use emucpu.Prelude.Dict.{mem_text}
use emucpu.Conductor.Process.{ProcessResult, finished}
use emucpu.Conductor.Steps.{Strategy, covered, difference, missing_from}
use emucpu.Conductor.Stored.{StrategyFile, holds, load_strategy, encode_all}
use emucpu.Conductor.Search.{awaited_twice, exception_group, Solvers, has_code}
use emucpu.Conductor.Search.Single.{is_proved}
use emucpu.Conductor.Explore.{ExploreArgs, Constructed, construct_strategy}
use emucpu.Conductor.Explore.Hard.{construct_strategy-hard}
use emucpu.Conductor.Explore.Easy.{construct_strategy-awaited_twice}

abbrev outcome : ℕ → ProcessResult
outcome code = record {
  code = some (pos code);
  reason = finished;
  max_mem = 1000;
  dt = 50;
  stdout = some (codes "");
  stderr = none;
}

-- Only the property `a` can be proved.
abbrev solvers : Solvers
solvers = record {
  aig_manip = λ step props. some (pos 0);
  shell = λ config limit step props. outcome (if mem_text (codes "a") props then 20 else 30);
}

abbrev old : List Strategy
old = record { step = 0; props = codes "b" ∷ []; config = codes "rIC3"; procres = outcome 20 } ∷ []

abbrev file : StrategyFile
file = holds (encode_all old)

abbrev args : Bool → ExploreArgs
args hard = record { fresh = false; no_store = false; hard = hard }

abbrev props : List Text
props = codes "a" ∷ codes "b" ∷ codes "c" ∷ []

construct_strategy-hard_example :
    (c : Constructed) × ((construct_strategy solvers (args true) holds 0 props file).1 ≡ ok c)
    × ((k : Text)
        → mem_text k (covered c.strategy)
          ≡ (mem_text k (covered old) || (mem_text k props && is_proved solvers 0 k)))
unfolding load_strategy encode_all has_code map_ok
construct_strategy-hard_example =
    construct_strategy-hard solvers (args true) holds 0 props file (some old) refl (λ props. refl)
      refl

construct_strategy-awaited_twice_example :
    construct_strategy solvers (args false) holds 0 props file
    ≡ (file, raise (exception_group awaited_twice))
unfolding load_strategy encode_all missing_from has_code map_ok difference covered mem_text text_eq
construct_strategy-awaited_twice_example =
    construct_strategy-awaited_twice solvers (args false) holds 0 props file (some old) refl
      (λ props. refl) refl (λ e. cc) ((λ e. cc), (λ e. cc, tt))
