-- ===== src/IbexCmd/Simulators.antt =====
-- `SIM_CFGS`, `_get_x_opts`, `get_compile_opts` and `get_sim_opts`.
pub mod Phases
use emucpu.Prelude.{
  Bool, true, false, not, ◌&&◌, if◌then◌else◌, List, [], ◌∷◌, ◌++◌, Option, none, some, Result, ok,
  raise, ◌>>=◌,
}
use emucpu.Prelude.Dict.{Dict, lookup}
use emucpu.Prelude.Text.{Text, codes}

pub record SimCfg : Type 0 where
  pub needs_compile_opts : Bool
  pub needs_sim_opts : Bool

abbrev needs : Bool → Bool → SimCfg
needs c s = record { needs_compile_opts = c; needs_sim_opts = s }

unfoldable pub sim_cfgs : Dict SimCfg
sim_cfgs =
    (codes "vcs", needs true false)
    ∷ (codes "riviera", needs true true)
    ∷ (codes "questa", needs true true)
    ∷ (codes "xlm", needs true false)
    ∷ (codes "dsim", needs true false)
    ∷ []

-- The `stage` argument: its two callers pass 'compile' and 'sim'.
pub data Stage : Type 0 where
  compile sim : Stage

unfoldable pub stage_name : Stage → Text
stage_name compile = codes "compile"
stage_name sim = codes "sim"

pub data OptsError : Type 0 where
  unsupported_simulator : Text → OptsError
  gen_error : Text → OptsError

unfoldable pub stage_needs : SimCfg → Stage → Bool
stage_needs c compile = c.needs_compile_opts
stage_needs c sim = c.needs_sim_opts

-- The output type that `_get_x_opts` asks ibex_config.py for; `none` where it returns ''.
unfoldable pub output_type : Text → Stage → SimCfg → Option Text
unfolding stage_needs stage_name
output_type simulator stage c =
    if not (stage_needs c stage)
    then none
    else some (
        if c.needs_compile_opts && c.needs_sim_opts
        then simulator ++ codes "_" ++ stage_name stage ++ codes "_opts"
        else simulator ++ codes "_opts")

-- `_get_x_opts`. Running ibex_config.py in a process of its own is a parameter.
unfoldable pub get_x_opts :
    (Text → Text → Result Text Text) → Text → Text → Stage → Result OptsError Text
unfolding output_type
get_x_opts run_ibex_config config_name simulator stage = elim (lookup simulator sim_cfgs) [
  | none ↦ raise (unsupported_simulator simulator)
  | some c ↦ elim (output_type simulator stage c) [
    | none ↦ ok []
    | some t ↦ elim (run_ibex_config config_name t) [
      | ok stdout ↦ ok stdout
      | raise err ↦ raise (gen_error err)
    ]
  ]
]

unfoldable pub get_compile_opts :
    (Text → Text → Result Text Text) → Text → Text → Result OptsError Text
unfolding get_x_opts
get_compile_opts run config_name simulator = get_x_opts run config_name simulator compile

unfoldable pub get_sim_opts : (Text → Text → Result Text Text) → Text → Text → Result OptsError Text
unfolding get_x_opts
get_sim_opts run config_name simulator = get_x_opts run config_name simulator sim
