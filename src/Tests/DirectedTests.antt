-- ===== src/Tests/DirectedTests.antt =====
-- A directed test with its configuration.
use emucpu.Prelude.{true, [], ◌∷◌, ◌++◌, Option, some, map_ok, refl}
use emucpu.Prelude.Int.{pos}
use emucpu.Prelude.Text.{Text, codes, text_eq}
use emucpu.Prelude.Dict.{Dict, lookup, insert, mem_text}
use emucpu.IbexConfig.Value.{Value, text, integer, mapping, end}
use emucpu.DirectedTests.{Validation, Model, Imported, is_config, import_model}
use emucpu.DirectedTests.Merged.{AllJoined, import_model-AllJoined}

abbrev accept : Model → Text → Value → Option Value
accept model k x = some x

abbrev validation : Validation
validation = record { validated = accept; exists = λ p. true; in_parent = λ dt p. codes "/d/" ++ p }

abbrev common : Dict Value
common =
    (codes "config", text (codes "riscv"))
    ∷ (codes "rtl_test", text (codes "core_ibex_base_test"))
    ∷ (codes "rtl_params", mapping end)
    ∷ (codes "timeout_s", integer (pos 300))
    ∷ (codes "gcc_opts", text (codes "-O3"))
    ∷ (codes "ld_script", text (codes "link.ld"))
    ∷ (codes "includes", text (codes "inc"))
    ∷ (codes "owner", text (codes "me"))
    ∷ []

abbrev one_test : Dict Value
one_test =
    (codes "test", text (codes "empty"))
    ∷ (codes "desc", text (codes "nothing"))
    ∷ (codes "config", text (codes "riscv"))
    ∷ (codes "test_srcs", text (codes "empty.S"))
    ∷ (codes "iterations", integer (pos 1))
    ∷ (codes "gcc_opts", text (codes "-O0"))
    ∷ []

abbrev with_opts : Text → Dict Value
with_opts gcc_opts =
    (codes "config", text (codes "riscv"))
    ∷ (codes "rtl_test", text (codes "core_ibex_base_test"))
    ∷ (codes "rtl_params", mapping end)
    ∷ (codes "timeout_s", integer (pos 300))
    ∷ (codes "gcc_opts", text gcc_opts)
    ∷ (codes "ld_script", text (codes "/d/link.ld"))
    ∷ (codes "includes", text (codes "/d/inc"))
    ∷ []

abbrev imported : Imported
imported = record {
  yaml = codes "/d/t.yaml";
  configs = with_opts (codes "-O3") ∷ [];
  tests =
      (with_opts (codes "-O0")
        ++ ((codes "test", text (codes "empty"))
            ∷ (codes "desc", text (codes "nothing"))
            ∷ (codes "test_srcs", text (codes "/d/empty.S"))
            ∷ (codes "iterations", integer (pos 1))
            ∷ []))
      ∷ [];
}

import_model-AllJoined_example :
    AllJoined validation (codes "/d/t.yaml") (common ∷ one_test ∷ []) imported
unfolding import_model is_config lookup text_eq map_ok insert mem_text
import_model-AllJoined_example =
    import_model-AllJoined validation (codes "/d/t.yaml") (common ∷ one_test ∷ []) imported
      ((refl, (refl, (refl, (refl, (refl, (refl, tt)))))), tt) refl
