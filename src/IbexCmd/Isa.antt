-- ===== src/IbexCmd/Isa.antt =====
-- `get_isas_for_config`.
pub mod Agree
use emucpu.Prelude.{
  Bool, true, false, not, if◌then◌else◌, List, [], ◌∷◌, ◌++◌, Option, none, some, Result, ok, raise,
}
use emucpu.Prelude.Dict.{Dict, lookup}
use emucpu.Prelude.Text.{Text, codes, text_eq, join}
use emucpu.IbexConfig.Fields.{Config}

unfoldable pub bitmanip_mapping : Dict (List Text)
bitmanip_mapping =
    (codes "ibex_pkg::RV32BNone", [])
    ∷ (
      codes "ibex_pkg::RV32BBalanced",
      codes "Zba" ∷ codes "Zbb" ∷ codes "Zbs" ∷ codes "XZbf" ∷ codes "XZbt" ∷ [],
    )
    ∷ (
      codes "ibex_pkg::RV32BOTEarlGrey",
      codes "Zba"
          ∷ codes "Zbb"
          ∷ codes "Zbc"
          ∷ codes "Zbs"
          ∷ codes "XZbf"
          ∷ codes "XZbp"
          ∷ codes "XZbr"
          ∷ codes "XZbt"
          ∷ [],
    )
    ∷ (
      codes "ibex_pkg::RV32BFull",
      codes "Zba"
          ∷ codes "Zbb"
          ∷ codes "Zbc"
          ∷ codes "Zbs"
          ∷ codes "XZbe"
          ∷ codes "XZbf"
          ∷ codes "XZbp"
          ∷ codes "XZbr"
          ∷ codes "XZbt"
          ∷ [],
    )
    ∷ []

unfoldable pub base_isa : Config → Text
base_isa cfg =
    let has_multiplier = not (text_eq cfg.rv32m (codes "ibex_pkg::RV32MNone")) in
    codes "rv32"
    ++ (if cfg.rv32e then codes "e" else codes "i")
    ++ (if has_multiplier then codes "m" else [])
    ++ codes "c"

unfoldable pub toolchain_isa : Config → Text
unfolding base_isa
toolchain_isa cfg =
    let has_bitmanip = not (text_eq cfg.rv32b (codes "ibex_pkg::RV32BNone")) in
    base_isa cfg ++ (if has_bitmanip then codes "b" else [])

-- The pair of the toolchain's ISA and the simulator's; the error carries the unknown RV32B value.
unfoldable pub get_isas_for_config : Config → Result Text (Text × Text)
unfolding toolchain_isa
get_isas_for_config cfg = elim (lookup cfg.rv32b bitmanip_mapping) [
  | none ↦ raise cfg.rv32b
  | some bitmanip_isa ↦ ok (toolchain_isa cfg, join (codes "_") (base_isa cfg ∷ bitmanip_isa))
]
