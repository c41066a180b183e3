-- ===== src/ToolCmds.antt =====
-- `get_tool_cmds` of dv/uvm/core_ibex/scripts/riscvdv_interface.py, with `subst_env_vars` of
-- scripts_lib.py: the commands of a simulator.
use emucpu.Prelude.{
  ℕ, Bool, true, false, not, ◌&&◌, ◌||◌, ◌==◌, leb, select, if◌then◌else◌, guard, List, [], ◌∷◌,
  Option, none, some, Result, ok, raise, ◌>>=◌, ◌>>◌, map_ok, ◌≡◌, refl,
}
use emucpu.Prelude.Text.{Text, codes, text_eq, strip}
use emucpu.Prelude.Dict.{Dict, lookup}
use emucpu.IbexConfig.Value.{Value, text, sequence, Values, nil, cons, as_dict}
use emucpu.Requirements.Check.{split_on}
use emucpu.ScriptsLib.{subst_opt, subst_dict}
use emucpu.Stdlib.Shlex.{ShlexError, shlex_split}
use emucpu.DirectedTests.{get}

-- No such simulator, an environment variable that is not set or a placeholder that is left; a
-- missing key; a value that is not of the type that the file is to have; a command that cannot be
-- divided into words.
pub data CmdError : Type 0 where
  runtime_error : CmdError
  key_error : CmdError
  type_error : CmdError
  bad_words : ShlexError → CmdError

-- `[\w]`, for ASCII.
unfoldable pub is_word : ℕ → Bool
is_word c =
    (leb b'a' c && leb c b'z')
    || (leb b'A' c && leb c b'Z')
    || (leb b'0' c && leb c b'9')
    || c == b'_'

-- The rest of a match behind `<`, with a word character seen or not.
unfoldable pub ends_parameter : Bool → Text → Bool
unfolding is_word
ends_parameter seen [] = false
ends_parameter seen (c ∷ s) =
    let more = ends_parameter true s in if is_word c then more else seen && c == b'>'

-- `re.findall(parameter_regex, s)` finds something.
unfoldable pub has_parameter : Text → Bool
unfolding ends_parameter
has_parameter [] = false
has_parameter (c ∷ s) = (c == b'<' && ends_parameter false s) || has_parameter s

has_parameter_runs :
    (has_parameter (codes "a<b <c_1> d") ≡ true) × (has_parameter (codes "a < b > <>") ≡ false)
unfolding has_parameter
has_parameter_runs = (refl, refl)

-- `_get_yaml_for_simulator` on the decoded file.
unfoldable pub simulator_entry : Text → List (Dict Value) → Result CmdError (Dict Value)
unfolding get
simulator_entry simulator [] = raise runtime_error
simulator_entry simulator (entry ∷ entries) =
    let later = simulator_entry simulator entries in
    elim (get (codes "tool") entry) [
      | text tool ↦ if text_eq tool simulator then ok entry else later
      | _ ↦ later
    ]

unfoldable pub subst_env_vars : (Text → Option Text) → Text → List Text → Result CmdError Text
unfolding subst_opt
subst_env_vars environ string [] = ok string
subst_env_vars environ string (var ∷ env_vars) = elim (environ var) [
  | none ↦ raise runtime_error
  | some value ↦ subst_env_vars environ (subst_opt string var value) env_vars
]

-- `v.strip() if user_enables.get(k) else ''`
unfoldable pub option_value : Dict Bool → Text → Value → Result CmdError Text
unfolding strip
option_value user_enables k v = elim (lookup k user_enables) [
  | some true ↦ elim v [ text s ↦ ok (strip s) | _ ↦ raise type_error ]
  | _ ↦ ok []
]

-- `cmd_opts_dict`
unfoldable pub cmd_opts_dict : Dict Bool → Dict Value → Result CmdError (Dict Text)
unfolding option_value
cmd_opts_dict user_enables [] = ok []
cmd_opts_dict user_enables ((k, v) ∷ section) =
    let rest = cmd_opts_dict user_enables section in
    if text_eq k (codes "cmd")
    then rest
    else (do value ← option_value user_enables k v; more ← rest; ok ((k, value) ∷ more))

-- `simulator_entry['env_var'].replace(' ', '').split(',')`, where there is that key.
unfoldable pub env_vars_of : Dict Value → Result CmdError (List Text)
unfolding split_on
env_vars_of entry = elim (lookup (codes "env_var") entry) [
  | none ↦ ok []
  | some (text s) ↦ ok (split_on b',' (select (λ c. not (c == b' ')) s))
  | some _ ↦ raise type_error
]

-- What the commands are made with: `user_enables`, `user_subst_options` and the environment.
pub record CmdOptions : Type 0 where
  pub user_enables : Dict Bool
  pub user_subst_options : Dict Text
  pub environ : Text → Option Text

abbrev or_bad_words : Result ShlexError (List Text) → Result CmdError (List Text)
or_bad_words (ok words) = ok words
or_bad_words (raise e) = raise (bad_words e)

-- The body of the loop over the commands.
unfoldable pub format_cmd :
    CmdOptions → Dict Value → Dict Value → Value → Result CmdError (List Text)
unfolding shlex_split cmd_opts_dict subst_dict env_vars_of subst_env_vars has_parameter
format_cmd o entry section (text cmd) = do
  opts ← cmd_opts_dict o.user_enables section
  env_vars ← env_vars_of entry
  formatted ←
      subst_env_vars o.environ (subst_dict (subst_dict cmd opts) o.user_subst_options) env_vars
  guard (not (has_parameter formatted)) runtime_error >> or_bad_words (shlex_split formatted)
format_cmd o entry section _ = raise type_error

abbrev pub listed : Values → List Value
listed nil = []
listed (cons v r) = v ∷ listed r

-- `simulator_entry[cmd_type]`
unfoldable pub section_of : Text → Dict Value → Result CmdError (Dict Value)
unfolding as_dict
section_of cmd_type entry = elim (lookup cmd_type entry) [
  | none ↦ raise key_error
  | some v ↦ elim (as_dict v) [ none ↦ raise type_error | some d ↦ ok d ]
]

-- `simulator_entry[cmd_type]['cmd']`, a list.
unfoldable pub cmds_of : Dict Value → Result CmdError (List Value)
cmds_of section = elim (lookup (codes "cmd") section) [
  | none ↦ raise key_error
  | some (sequence vs) ↦ ok (listed vs)
  | some _ ↦ raise type_error
]

unfoldable pub get_tool_cmds :
    List (Dict Value) → Text → Text → CmdOptions → Result CmdError (List (List Text))
unfolding simulator_entry section_of cmds_of format_cmd
get_tool_cmds yaml simulator cmd_type o = do
  entry ← simulator_entry simulator yaml
  section ← section_of cmd_type entry
  cmds ← cmds_of section
  map_ok (format_cmd o entry section) cmds
