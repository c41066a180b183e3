-- ===== src/Tests/Config.antt =====
-- Reading and printing a configuration.
use emucpu.Prelude.{true, false, [], ◌∷◌, some, Result, ok, all, is_ok, ◌≡◌, ◌↔◌, refl, All, sym}
use mathlib.Core.Path.{subst}
use emucpu.Prelude.Dict.{DistinctKeys, Dict, lookup, keys, mem_text}
use emucpu.Prelude.Int.{pos}
use emucpu.Prelude.Text.{Text, codes, text_eq}
use emucpu.IbexConfig.Fields.{Config, known_keys, known_fields}
use emucpu.IbexConfig.Value.{
  Value, integer, text, mapping, Entries, end, entry, as_dict, as_int, entries,
}
use emucpu.IbexConfig.Reader.{
  read_fields, read_bool, read_int, read_str, item, bool_of_value, bool_of_int, str_of_value,
  config_of_dict, config_init, parse_config, extra_keys, absent_keys, no_keys,
}
use emucpu.IbexConfig.Reader.Exact.{accepts, SameKeys, config_of_dict-accepts}
use emucpu.IbexConfig.Reader.Whole.{parse_config-eq-ok}
use emucpu.IbexConfig.Outputs.{SimOpts, SimArgs, sim_words}
use emucpu.IbexConfig.Outputs.Coverage.{all_words, sim_words-all_words}

abbrev pub small : Dict Value
small =
    (codes "RV32E", integer (pos 0))
    ∷ (codes "RV32M", text (codes "ibex_pkg::RV32MFast"))
    ∷ (codes "RV32B", text (codes "ibex_pkg::RV32BNone"))
    ∷ (codes "RV32ZC", text (codes "ibex_pkg::RV32Zca"))
    ∷ (codes "RegFile", text (codes "ibex_pkg::RegFileFF"))
    ∷ (codes "BranchTargetALU", integer (pos 0))
    ∷ (codes "WritebackStage", integer (pos 0))
    ∷ (codes "ICache", integer (pos 0))
    ∷ (codes "ICacheECC", integer (pos 0))
    ∷ (codes "ICacheScramble", integer (pos 0))
    ∷ (codes "BranchPredictor", integer (pos 0))
    ∷ (codes "DbgTriggerEn", integer (pos 0))
    ∷ (codes "SecureIbex", integer (pos 0))
    ∷ (codes "PMPEnable", integer (pos 0))
    ∷ (codes "PMPGranularity", integer (pos 0))
    ∷ (codes "PMPNumRegions", integer (pos 4))
    ∷ (codes "MHPMCounterNum", integer (pos 0))
    ∷ (codes "MHPMCounterWidth", integer (pos 40))
    ∷ []

abbrev pub small_config : Config
small_config = record {
  params = small;
  rv32e = false;
  rv32m = codes "ibex_pkg::RV32MFast";
  rv32b = codes "ibex_pkg::RV32BNone";
  rv32zc = codes "ibex_pkg::RV32Zca";
  reg_file = codes "ibex_pkg::RegFileFF";
  branch_target_alu = false;
  writeback_stage = false;
  icache = false;
  icache_ecc = false;
  icache_scramble = false;
  branch_predictor = false;
  dbg_trigger_en = false;
  secure_ibex = false;
  pmp_enable = false;
  pmp_granularity = pos 0;
  pmp_num_regions = pos 4;
  mhpm_counter_num = pos 0;
  mhpm_counter_width = pos 40;
}

read_small : config_of_dict small ≡ ok small_config
unfolding config_of_dict read_fields read_bool read_int read_str extra_keys absent_keys known_keys
    known_fields lookup mem_text text_eq item bool_of_value bool_of_int str_of_value as_int
read_small = refl

config_of_dict-accepts_example : (is_ok (config_of_dict small) ≡ true) ↔ (
    SameKeys (keys small) known_keys
    × All (λ f. accepts f.1 (lookup f.0 small) ≡ true) known_fields)
config_of_dict-accepts_example = config_of_dict-accepts small

none_of_them : no_keys (absent_keys []) ≡ false
unfolding absent_keys known_keys known_fields mem_text
none_of_them = refl

abbrev pack : Dict Value → Entries
pack [] = end
pack ((k, v) ∷ d) = entry k v (pack d)

abbrev configs : Dict Value
configs = (codes "small", mapping (pack small)) ∷ (codes "broken", integer (pos 0)) ∷ []

abbrev load : Text → Result Text Value
load contents = ok (mapping (pack configs))

load-DistinctKeys :
    (yml : Value) (d : Dict Value) → load [] ≡ ok yml → as_dict yml ≡ some d → DistinctKeys d
unfolding as_dict entries lookup text_eq
load-DistinctKeys yml d l a =
    let loaded : mapping (pack configs) ≡ yml = cc in
    let same : some configs ≡ some d = rw (sym loaded) at a in
    let equal : configs ≡ d = cc in subst DistinctKeys equal (refl, (refl, tt))

parse_config-eq-ok_example : (parse_config load (codes "small") [] ≡ ok small_config) ↔ (
    (yml : Value) × (d : Dict Value) × (load [] ≡ ok yml)
    × (as_dict yml ≡ some d)
    × (all (λ e. is_ok (config_init e.1)) d ≡ true)
    × ((v : Value) × (lookup (codes "small") d ≡ some v) × (config_init v ≡ ok small_config)))
parse_config-eq-ok_example =
    parse_config-eq-ok load (codes "small") [] small_config load-DistinctKeys

abbrev xlm : SimOpts
xlm = record {
  cmd_name = codes "xlm_opts";
  param_set_fn = λ p v. codes "-defparam" ∷ v ∷ [];
  define_set_fn = λ d v. codes "-define" ∷ v ∷ [];
  hierarchy_sep = codes ".";
}

abbrev args : SimArgs
args = record { ins_hier_path = codes "core_ibex_tb_top"; string_define_prefix = codes "IBEX_CFG_" }

sim_words-all_words_example :
    sim_words xlm small_config args ≡ ok (all_words xlm args small_config known_fields)
unfolding known_fields lookup text_eq
sim_words-all_words_example = sim_words-all_words xlm args small_config (
  refl,
  (
    refl,
    (
      refl,
      (
        refl,
        (
          refl,
          (
            refl,
            (
              refl,
              (
                refl,
                (refl, (refl, (refl, (refl, (refl, (refl, (refl, (refl, (refl, (refl, tt)))))))))),
              ),
            ),
          ),
        ),
      ),
    ),
  ),
)
