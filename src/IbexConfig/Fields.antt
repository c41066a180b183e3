-- ===== src/IbexConfig/Fields.antt =====
-- `Config.known_fields` and the attributes of a `Config`.
use emucpu.Prelude.{Bool, List, [], ◌∷◌, map}
use emucpu.Prelude.Dict.{Dict}
use emucpu.Prelude.Int.{ℤ}
use emucpu.Prelude.Text.{Text, codes}
use emucpu.IbexConfig.Value.{Value}

-- The Python type that a field is declared with.
pub data FieldType : Type 0 where
  bool str int : FieldType

unfoldable pub known_fields : List (Text × FieldType)
known_fields =
    (codes "RV32E", bool)
    ∷ (codes "RV32M", str)
    ∷ (codes "RV32B", str)
    ∷ (codes "RV32ZC", str)
    ∷ (codes "RegFile", str)
    ∷ (codes "BranchTargetALU", bool)
    ∷ (codes "WritebackStage", bool)
    ∷ (codes "ICache", bool)
    ∷ (codes "ICacheECC", bool)
    ∷ (codes "ICacheScramble", bool)
    ∷ (codes "BranchPredictor", bool)
    ∷ (codes "DbgTriggerEn", bool)
    ∷ (codes "SecureIbex", bool)
    ∷ (codes "PMPEnable", bool)
    ∷ (codes "PMPGranularity", int)
    ∷ (codes "PMPNumRegions", int)
    ∷ (codes "MHPMCounterNum", int)
    ∷ (codes "MHPMCounterWidth", int)
    ∷ []

unfoldable pub known_keys : List Text
unfolding known_fields
known_keys = map (λ f. f.0) known_fields

pub record Config : Type 0 where
  pub params : Dict Value
  pub rv32e : Bool
  pub rv32m : Text
  pub rv32b : Text
  pub rv32zc : Text
  pub reg_file : Text
  pub branch_target_alu : Bool
  pub writeback_stage : Bool
  pub icache : Bool
  pub icache_ecc : Bool
  pub icache_scramble : Bool
  pub branch_predictor : Bool
  pub dbg_trigger_en : Bool
  pub secure_ibex : Bool
  pub pmp_enable : Bool
  pub pmp_granularity : ℤ
  pub pmp_num_regions : ℤ
  pub mhpm_counter_num : ℤ
  pub mhpm_counter_width : ℤ
