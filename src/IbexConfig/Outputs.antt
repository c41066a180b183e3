-- ===== src/IbexConfig/Outputs.antt =====
-- The output formats of util/ibex_config.py: `FusesocOpts`, `QueryOpts`, `SimOpts` and the list of
-- outputters in `main`. `show` is Python's `str` on a value and `shlex.quote` is modelled below.
pub mod Coverage
use emucpu.Prelude.{
  ℕ, Bool, true, false, not, ◌&&◌, ◌||◌, ◌==◌, leb, if◌then◌else◌, List, [], ◌∷◌, ◌++◌, map, Option,
  none, some, Result, ok, raise, ◌>>=◌, map_ok, all,
}
use emucpu.Prelude.Dict.{Dict, lookup}
use emucpu.Prelude.Int.{ℤ}
use emucpu.Prelude.Text.{Text, codes, join, text_eq, show_int}
use emucpu.IbexConfig.Fields.{Config, FieldType, bool, str, int, known_fields}
use emucpu.IbexConfig.Value.{Value, boolean, integer, text, as_int}

-- The characters that `shlex.quote` leaves alone: ASCII word characters and @%+=:,./-
unfoldable pub is_safe : ℕ → Bool
is_safe c =
    (leb b'a' c && leb c b'z')
    || (leb b'A' c && leb c b'Z')
    || (leb b'0' c && leb c b'9')
    || c == b'_'
    || c == b'@'
    || c == b'%'
    || c == b'+'
    || c == b'='
    || c == b':'
    || c == b','
    || c == b'.'
    || c == b'/'
    || c == b'-'

unfoldable pub escape_quotes : Text → Text
escape_quotes [] = []
escape_quotes (c ∷ s) = (if c == 39 then codes "'\"'\"'" else c ∷ []) ++ escape_quotes s

-- `shlex.quote`
unfoldable pub quote : Text → Text
unfolding is_safe escape_quotes
quote [] = codes "''"
quote (c ∷ s) =
    if all is_safe (c ∷ s) then c ∷ s else codes "'" ++ escape_quotes (c ∷ s) ++ codes "'"

-- Failures of an output function; none happens for a `Config` that was constructed.
pub data OutputError : Type 0 where
  key_error : Text → OutputError
  type_error : Text → Value → OutputError

-- `config.params[fld]`
unfoldable pub param : Config → Text → Result OutputError Value
param config fld = elim (lookup fld config.params) [ none ↦ raise (key_error fld) | some v ↦ ok v ]

module _ (show : Value → Text) where
  -- `FusesocOpts.output`
  unfoldable pub fusesoc_output : Config → Result OutputError Text
  unfolding param quote
  fusesoc_output config = do
    fusesoc_cmd ←
        map_ok
          (λ f. param config f.0 >>= λ val. ok (quote (codes "--" ++ f.0 ++ codes "=" ++ show val)))
          known_fields
    ok (join (codes " ") fusesoc_cmd)

  unfoldable pub query_line : Config → Text → Text
  query_line config fld = elim (lookup fld config.params) [
    | some val ↦ fld ++ codes "=" ++ show val
    | none ↦ fld ++ codes " not found in config"
  ]

  -- `QueryOpts.output` on the fields of the command line
  unfoldable pub query_output : Config → List Text → Text
  unfolding query_line
  query_output config fields = join (codes "\n") (map (query_line config) fields)

pub record SimOpts : Type 0 where
  pub cmd_name : Text
  pub param_set_fn : Text → Text → List Text
  pub define_set_fn : Text → Text → List Text
  pub hierarchy_sep : Text

-- The arguments of the command line that `SimOpts.output` reads.
pub record SimArgs : Type 0 where
  pub ins_hier_path : Text
  pub string_define_prefix : Text

unfoldable pub hier_prefix : SimOpts → SimArgs → Text
hier_prefix o args =
    if not (text_eq args.ins_hier_path []) then args.ins_hier_path ++ o.hierarchy_sep else []

-- The options for a field that is declared `str`, and for the others.
unfoldable pub define_opts : SimOpts → SimArgs → Text → Value → Result OutputError (List Text)
define_opts o args fld (text val) = ok (o.define_set_fn (args.string_define_prefix ++ fld) val)
define_opts o args fld val = raise (type_error fld val)

unfoldable pub param_opts : SimOpts → SimArgs → Text → Value → Result OutputError (List Text)
unfolding as_int hier_prefix
param_opts o args fld val = elim (as_int val) [
  | some i ↦ ok (o.param_set_fn (hier_prefix o args ++ fld) (show_int i))
  | none ↦ raise (type_error fld val)
]

unfoldable pub field_opts :
    SimOpts → SimArgs → FieldType → Text → Value → Result OutputError (List Text)
unfolding define_opts param_opts
field_opts o args str fld val = define_opts o args fld val
field_opts o args bool fld val = param_opts o args fld val
field_opts o args int fld val = param_opts o args fld val

-- The loop of `SimOpts.output`, over the fields still to come.
unfoldable pub sim_opts_from :
    SimOpts
    → SimArgs
    → Config
    → List (Text × FieldType)
    → List Text
    → Result OutputError (List Text)
unfolding param field_opts quote
sim_opts_from o args config [] sim_opts = ok sim_opts
sim_opts_from o args config ((fld, typ) ∷ fields) sim_opts = do
  val ← param config fld
  opts ← field_opts o args typ fld val
  sim_opts_from o args config fields (sim_opts ++ map quote opts)

unfoldable pub sim_words : SimOpts → Config → SimArgs → Result OutputError (List Text)
unfolding sim_opts_from
sim_words o config args = sim_opts_from o args config known_fields []

-- `SimOpts.output`
unfoldable pub sim_output : SimOpts → Config → SimArgs → Result OutputError Text
unfolding sim_words
sim_output o config args = do sim_opts ← sim_words o config args; ok (join (codes " ") sim_opts)

-- The functions that `main` passes to `SimOpts`.
abbrev joined : Text → Text → Text → List Text
joined start p v = (start ++ p ++ codes "=" ++ v) ∷ []

abbrev two_words : Text → Text → Text → List Text
two_words option p v = option ∷ (p ++ codes "=" ++ v) ∷ []

abbrev no_option : Text → Text → List Text
no_option p v = []

abbrev sim : Text → (Text → Text → List Text) → (Text → Text → List Text) → Text → SimOpts
sim name p d sep = record {
  cmd_name = name;
  param_set_fn = p;
  define_set_fn = d;
  hierarchy_sep = sep;
}

-- The `SimOpts` objects of `main`, in order.
unfoldable pub sim_outputters : List SimOpts
sim_outputters =
    sim (codes "vcs_opts") (joined (codes "-pvalue+")) (joined (codes "+define+")) (codes ".")
    ∷ sim (codes "riviera_sim_opts") (joined (codes "-g/")) no_option (codes "/")
    ∷ sim (codes "riviera_compile_opts") no_option (joined (codes "+define+")) (codes "/")
    ∷ sim (codes "questa_sim_opts") (joined (codes "-g/")) no_option (codes "/")
    ∷ sim (codes "questa_compile_opts") no_option (joined (codes "+define+")) (codes "/")
    ∷ sim (codes "xlm_opts") (two_words (codes "-defparam")) (two_words (codes "-define"))
        (codes ".")
    ∷ sim (codes "dsim_opts") (two_words (codes "-defparam")) (joined (codes "+define+"))
        (codes ".")
    ∷ []

-- The subcommand that argparse selects by name.
unfoldable pub find_outputter : Text → List SimOpts → Option SimOpts
find_outputter name [] = none
find_outputter name (o ∷ os) = if text_eq o.cmd_name name then some o else find_outputter name os
