-- ===== src/IbexCmd/Isa/Agree.antt =====
-- The two ISA strings of a configuration agree.
use emucpu.Prelude.{
  Bool, true, false, if◌then◌else◌, List, [], ◌∷◌, ◌++◌, some, ok, All, arith, ◌≡◌, refl,
  Option-cases, inl, inr,
}
use emucpu.Prelude.Dict.{lookup, lookup-All}
use emucpu.Prelude.Text.{Text, codes, text_eq, join}
use emucpu.IbexConfig.Fields.{Config}
use emucpu.IbexCmd.Isa.{bitmanip_mapping, base_isa, get_isas_for_config}

abbrev pub is_empty : List Text → Bool
is_empty [] = true
is_empty (x ∷ xs) = false

-- The value `RV32BNone` is the one that maps to no extension.
mapping-is_empty :
    All (λ e. text_eq e.0 (codes "ibex_pkg::RV32BNone") ≡ is_empty e.1) bitmanip_mapping
unfolding bitmanip_mapping text_eq
mapping-is_empty = (refl, (refl, (refl, (refl, tt))))

-- Whenever `get_isas_for_config` returns, the simulator's ISA is the base ISA followed by the
-- extensions of the RV32B value, and the toolchain's is the base ISA with a `b` exactly when there
-- is such an extension.
pub isas_agree :
    (cfg : Config) {t i : Text}
    → get_isas_for_config cfg ≡ ok (t, i)
    → (exts : List Text) × (lookup cfg.rv32b bitmanip_mapping ≡ some exts)
      × (i ≡ join (codes "_") (base_isa cfg ∷ exts))
      × (t ≡ base_isa cfg ++ (if is_empty exts then [] else codes "b"))
unfolding get_isas_for_config
isas_agree cfg h = elim (Option-cases (lookup cfg.rv32b bitmanip_mapping)) [
  | inl unknown ↦ absurd (ground arith)
  | inr (exts, known) ↦
      let same =
        lookup-All (λ k e. text_eq k (codes "ibex_pkg::RV32BNone") ≡ is_empty e) bitmanip_mapping
          cfg.rv32b mapping-is_empty known in
      (exts, known, ground arith, ground (arith, same))
]
