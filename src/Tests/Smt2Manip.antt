-- ===== src/Tests/Smt2Manip.antt =====
-- Two steps and a cover property, for the second step.
use emucpu.Prelude.{List, [], ◌∷◌, ◌++◌, ok, ◌≡◌, refl}
use emucpu.Prelude.Text.{Text, codes}
use emucpu.Smt2Manip.{Asked, Lists, on_lines, no_lists, match_assert, top_u, rewritten, verdict}
use emucpu.Smt2Manip.Passes.{Assertion, assertions, on_lines-two_passes}

abbrev asked : Asked
asked = record { step = 1; props = [] }

abbrev declared : List Text
declared =
    codes "; yosys-smt2-assert 0 u_top.Step0_A$12 file.sv:1"
    ∷ codes "; yosys-smt2-assert 1 u_top.Step1_B$13 file.sv:2"
    ∷ codes "; yosys-smt2-assert 2 u_top.Step0_A_Cover$14 file.sv:3"
    ∷ []

abbrev functions : List Text
functions =
    codes "  (|top_a 0| state)"
    ∷ codes "  (|top_a 1| state)"
    ∷ codes "  (|top_a 2| state)"
    ∷ top_u
    ∷ []

abbrev three : List Assertion
three =
    (codes "0", (0, codes "A"))
    ∷ (codes "1", (1, codes "B"))
    ∷ (codes "2", (0, codes "A_Cover"))
    ∷ []

on_lines-two_passes_example :
    (first : Lists) × (on_lines asked declared no_lists ≡ ok first)
    × (on_lines asked (declared ++ functions) no_lists
        ≡ ok (record first {
          mapped =
              first.mapped
              ++ (codes "  (|top_a 1| state)" ∷ top_u ∷ codes "  (|top_a 0| state)" ∷ []);
        }))
unfolding assertions match_assert rewritten verdict
on_lines-two_passes_example =
    on_lines-two_passes asked declared functions {found = three} refl
      (refl, (refl, (refl, (refl, tt))))
