-- ===== src/Tests/Cmd.antt =====
-- The selection of tests, the options for a simulator and the ISA strings.
use emucpu.Prelude.{true, false, [], ◌∷◌, ◌++◌, some, if◌then◌else◌, ◌≡◌, refl}
use emucpu.Prelude.Dict.{lookup}
use emucpu.Prelude.Int.{pos}
use emucpu.Prelude.Text.{codes, text_eq, join}
use emucpu.IbexConfig.Value.{integer, text, boolean, mapping, entry, end, Entries, as_int}
use emucpu.IbexCmd.Isa.{get_isas_for_config, base_isa, bitmanip_mapping}
use emucpu.IbexCmd.Isa.Agree.{is_empty, isas_agree}
use emucpu.IbexCmd.Filter.{TestEntry, filter_tests_by_config}
use emucpu.IbexCmd.Filter.Copies.{expand, filter-expand}
use emucpu.Tests.Config.{small_config}

isas_agree_example :
    (exts : _) × (lookup (codes "ibex_pkg::RV32BNone") bitmanip_mapping ≡ some exts)
    × (codes "rv32imc" ≡ join (codes "_") (base_isa small_config ∷ exts))
    × (codes "rv32imc" ≡ base_isa small_config ++ (if is_empty exts then [] else codes "b"))
unfolding get_isas_for_config lookup text_eq bitmanip_mapping join
isas_agree_example = isas_agree small_config {t = codes "rv32imc"} {i = codes "rv32imc"} refl

abbrev named : TestEntry → TestEntry
named test = (codes "test", text (codes "riscv_arithmetic_basic_test")) ∷ test

abbrev two_params : Entries
two_params = entry (codes "ICache") (integer (pos 0)) (entry (codes "RV32E") (boolean false) end)

abbrev plain : TestEntry
plain = named []

abbrev twice : TestEntry
twice = named ((codes "rtl_params", mapping two_params) ∷ [])

abbrev one_param : TestEntry
one_param = named ((codes "rtl_params", mapping (entry (codes "ICache") (boolean true) end)) ∷ [])

abbrev another : TestEntry
another =
    named ((codes "rtl_params", mapping (entry (codes "PMPNumRegions") (integer (pos 4)) end)) ∷ [])

filter-expand_example :
    plain ∷ twice ∷ twice ∷ another ∷ []
    ≡ expand small_config (plain ∷ twice ∷ one_param ∷ another ∷ [])
unfolding filter_tests_by_config lookup text_eq as_int
filter-expand_example = filter-expand small_config (plain ∷ twice ∷ one_param ∷ another ∷ []) refl
