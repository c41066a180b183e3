-- ===== src/IbexConfig/Reader.antt =====
-- `Config.__init__`, the three readers, `Configs.__init__` and `parse_config`.
pub mod Exact
pub mod Whole
use emucpu.Prelude.{
  ℕ, Bool, true, false, not, ◌==◌, if◌then◌else◌, List, [], ◌∷◌, Option, none, some, Result, ok,
  raise, ◌>>=◌, ◌>>◌, guard, select,
}
use emucpu.Prelude.Dict.{Dict, lookup, insert, keys, mem_text}
use emucpu.Prelude.Int.{ℤ, pos, negsuc}
use emucpu.Prelude.Text.{Text, codes}
use emucpu.IbexConfig.Fields.{Config, known_keys}
use emucpu.IbexConfig.Value.{Value, boolean, integer, text, as_dict, as_int}

-- A `ValueError` with what its message reports; `key_error` is Python's.
pub data ConfigError : Type 0 where
  not_a_dict : ConfigError
  unknown_keys : List Text → ConfigError
  missing_keys : List Text → ConfigError
  out_of_range : Text → ℤ → ConfigError
  not_a_bool : Text → Value → ConfigError
  not_an_int : Text → Value → ConfigError
  not_a_string : Text → Value → ConfigError
  key_error : Text → ConfigError

-- `yml[fld]`
unfoldable pub item : Text → Dict Value → Result ConfigError Value
item fld yml = elim (lookup fld yml) [ none ↦ raise (key_error fld) | some v ↦ ok v ]

-- `if 0 <= val <= 1: return val != 0`
unfoldable pub bool_of_int : Text → ℤ → Result ConfigError Bool
bool_of_int fld (pos n) =
    if n == 0 then ok false else if n == 1 then ok true else raise (out_of_range fld (pos n))
bool_of_int fld (negsuc n) = raise (out_of_range fld (negsuc n))

unfoldable pub bool_of_value : Text → Value → Result ConfigError Bool
unfolding bool_of_int
bool_of_value fld (boolean b) = ok b
bool_of_value fld (integer i) = bool_of_int fld i
bool_of_value fld v = raise (not_a_bool fld v)

unfoldable pub read_bool : Text → Dict Value → Result ConfigError Bool
unfolding item bool_of_value
read_bool fld yml = item fld yml >>= bool_of_value fld

unfoldable pub read_int : Text → Dict Value → Result ConfigError ℤ
unfolding item as_int
read_int fld yml = do
  val ← item fld yml
  elim (as_int val) [ some i ↦ ok i | none ↦ raise (not_an_int fld val) ]

unfoldable pub str_of_value : Text → Value → Result ConfigError Text
str_of_value fld (text s) = ok s
str_of_value fld v = raise (not_a_string fld v)

unfoldable pub read_str : Text → Dict Value → Result ConfigError Text
unfolding item str_of_value
read_str fld yml = item fld yml >>= str_of_value fld

-- `yaml_keys - known_keys` and `known_keys - yaml_keys`
unfoldable pub extra_keys : Dict Value → List Text
extra_keys yml = select (λ k. not (mem_text k known_keys)) (keys yml)

unfoldable pub absent_keys : Dict Value → List Text
absent_keys yml = select (λ k. not (mem_text k (keys yml))) known_keys

abbrev pub no_keys : List Text → Bool
no_keys [] = true
no_keys (k ∷ ks) = false

-- The assignments of `Config.__init__`, in order.
unfoldable pub read_fields : Dict Value → Result ConfigError Config
read_fields yml = do
  rv32e ← read_bool (codes "RV32E") yml
  rv32m ← read_str (codes "RV32M") yml
  rv32b ← read_str (codes "RV32B") yml
  rv32zc ← read_str (codes "RV32ZC") yml
  reg_file ← read_str (codes "RegFile") yml
  branch_target_alu ← read_bool (codes "BranchTargetALU") yml
  writeback_stage ← read_bool (codes "WritebackStage") yml
  icache ← read_bool (codes "ICache") yml
  icache_ecc ← read_bool (codes "ICacheECC") yml
  icache_scramble ← read_bool (codes "ICacheScramble") yml
  branch_predictor ← read_bool (codes "BranchPredictor") yml
  dbg_trigger_en ← read_bool (codes "DbgTriggerEn") yml
  secure_ibex ← read_bool (codes "SecureIbex") yml
  pmp_enable ← read_bool (codes "PMPEnable") yml
  pmp_granularity ← read_int (codes "PMPGranularity") yml
  pmp_num_regions ← read_int (codes "PMPNumRegions") yml
  mhpm_counter_num ← read_int (codes "MHPMCounterNum") yml
  mhpm_counter_width ← read_int (codes "MHPMCounterWidth") yml
  ok (record {
    params = yml;
    rv32e = rv32e;
    rv32m = rv32m;
    rv32b = rv32b;
    rv32zc = rv32zc;
    reg_file = reg_file;
    branch_target_alu = branch_target_alu;
    writeback_stage = writeback_stage;
    icache = icache;
    icache_ecc = icache_ecc;
    icache_scramble = icache_scramble;
    branch_predictor = branch_predictor;
    dbg_trigger_en = dbg_trigger_en;
    secure_ibex = secure_ibex;
    pmp_enable = pmp_enable;
    pmp_granularity = pmp_granularity;
    pmp_num_regions = pmp_num_regions;
    mhpm_counter_num = mhpm_counter_num;
    mhpm_counter_width = mhpm_counter_width;
  })

-- The error for missing keys names `extra_keys`, as the source does.
unfoldable pub config_of_dict : Dict Value → Result ConfigError Config
config_of_dict yml = do
  guard (no_keys (extra_keys yml)) (unknown_keys (extra_keys yml))
  guard (no_keys (absent_keys yml)) (missing_keys (extra_keys yml))
  read_fields yml

-- `Config(yml)`
unfoldable pub config_init : Value → Result ConfigError Config
unfolding as_dict
config_init yml = elim (as_dict yml) [ none ↦ raise not_a_dict | some d ↦ config_of_dict d ]

pub data ConfigsError : Type 0 where
  not_a_configs_dict : ConfigsError
  bad_config : Text → ConfigError → ConfigsError

-- The loop of `Configs.__init__`, with `self.configs`.
unfoldable pub add_configs : Dict Config → Dict Value → Result ConfigsError (Dict Config)
add_configs configs [] = ok configs
add_configs configs ((cfg_name, cfg_yaml) ∷ items) = elim (config_init cfg_yaml) [
  | ok cfg ↦ add_configs (insert cfg_name cfg configs) items
  | raise err ↦ raise (bad_config cfg_name err)
]

-- `Configs(yml)`
unfoldable pub configs_init : Value → Result ConfigsError (Dict Config)
unfolding as_dict
configs_init yml = elim (as_dict yml) [
  | none ↦ raise not_a_configs_dict
  | some d ↦ add_configs [] d
]

pub data ParseError : Type 0 where
  bad_yaml : Text → ParseError
  bad_configs : ConfigsError → ParseError
  no_such_config : Text → ParseError

-- `parse_config` on the text of the file. The YAML parser is a parameter.
unfoldable pub parse_config : (Text → Result Text Value) → Text → Text → Result ParseError Config
parse_config yaml_load config_name contents = elim (yaml_load contents) [
  | raise err ↦ raise (bad_yaml err)
  | ok yml ↦ elim (configs_init yml) [
    | raise err ↦ raise (bad_configs err)
    | ok configs ↦ elim (lookup config_name configs) [
      | none ↦ raise (no_such_config config_name)
      | some config ↦ ok config
    ]
  ]
]
