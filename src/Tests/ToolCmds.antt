-- ===== src/Tests/ToolCmds.antt =====
-- The commands of a simulator.
use emucpu.Prelude.{true, [], ◌∷◌, some, ok, map_ok, ◌≡◌, refl}
use emucpu.Prelude.Text.{codes, text_eq, strip}
use emucpu.Prelude.Dict.{Dict, lookup}
use emucpu.IbexConfig.Value.{Value, text, sequence, mapping, nil, cons, entry, end}
use emucpu.ToolCmds.{CmdOptions, get_tool_cmds}

abbrev xlm : Dict Value
xlm =
    (codes "tool", text (codes "xlm"))
    ∷ (codes "env_var", text (codes "HOME, USER"))
    ∷ (
      codes "sim",
      mapping (
          entry (codes "cmd") (sequence (cons (text (codes "run <cov> <out> <HOME>")) nil))
            (entry (codes "cov") (text (codes "-c ")) end)),
    )
    ∷ []

abbrev options : CmdOptions
options = record {
  user_enables = (codes "cov", true) ∷ [];
  user_subst_options = (codes "out", codes "d") ∷ [];
  environ = λ var. some (codes "/h");
}

xlm_commands :
    get_tool_cmds (xlm ∷ []) (codes "xlm") (codes "sim") options
    ≡ ok ((codes "run" ∷ codes "-c" ∷ codes "d" ∷ codes "/h" ∷ []) ∷ [])
unfolding get_tool_cmds lookup text_eq strip map_ok
xlm_commands = refl
