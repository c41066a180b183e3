-- ===== src/RunInstrGen/Reloc.antt =====
-- `reloc_word` and `reloc_commands` of run_instr_gen.py.
pub mod Plusarg
use emucpu.Prelude.{
  Bool, true, false, ◌&&◌, ◌==◌, if◌then◌else◌, List, [], ◌∷◌, ◌++◌, Option, none, some, Result, ok,
  raise, ◌>>=◌, map_ok,
}
use emucpu.Prelude.Text.{Text, codes, text_eq, strip, contains}
use emucpu.Prelude.Dict.{Dict, lookup}
use emucpu.Requirements.Check.{split_on}
use emucpu.ToolCmds.{is_word}
use emucpu.Stdlib.OsPath.{join_path, abs_path}
use emucpu.Stdlib.Shlex.{ShlexError, shlex_split}

-- No such simulator; a placeholder that is left, or a file that is missing; a line that cannot be
-- divided into words; a file that cannot be used; a number that cannot be read; a value of another
-- type; a list that is empty.
pub data GenError : Type 0 where
  key_error : Text → GenError
  runtime_error : Text → GenError
  bad_line : ShlexError → GenError
  os_error : Text → GenError
  value_error : Text → GenError
  type_error : Text → GenError
  index_error : GenError

-- The arguments of `reloc_word` but the word, and the working directory.
pub record Places : Type 0 where
  pub simulator : Text
  pub placeholder_dir : Text
  pub build_dir : Text
  pub scratch_dir : Text
  pub testname : Text
  pub cwd : Text

-- `sim_relocs`
unfoldable pub sim_relocs : Places → Dict (List (Text × Text))
unfolding join_path
sim_relocs a =
    (
      codes "vcs",
      (join_path a.placeholder_dir (codes "vcs_simv"), join_path a.build_dir (codes "vcs_simv"))
          ∷ [],
    )
    ∷ (codes "xlm", (a.placeholder_dir, a.build_dir) ∷ [])
    ∷ (
      codes "dsim",
      (join_path a.placeholder_dir (codes "dsim"), join_path a.build_dir (codes "dsim")) ∷ [],
    )
    ∷ []

-- `always_relocs`
unfoldable pub always_relocs : Places → List (Text × Text)
unfolding join_path
always_relocs a =
    (
      join_path (join_path a.placeholder_dir (codes "asm_test")) a.testname,
      join_path a.scratch_dir (codes "test"),
    )
    ∷ (join_path a.placeholder_dir (codes "asm_test"), a.scratch_dir)
    ∷ (
      join_path a.placeholder_dir (codes "sim_" ++ a.testname ++ codes "_0.log"),
      join_path a.scratch_dir (codes "gen.log"),
    )
    ∷ []

-- `.*`, which ends before a line feed.
unfoldable pub line_of : Text → Text
line_of [] = []
line_of (c ∷ s) = if c == 10 then [] else c ∷ line_of s

-- `[A-Za-z0-9_]+=` and what is behind it, with a character of the name seen or not.
unfoldable pub name_and_value : Bool → Text → Option (Text × Text)
unfolding is_word line_of
name_and_value seen [] = none
name_and_value seen (c ∷ s) =
    let more = name_and_value true s in
    if is_word c
    then elim more [ none ↦ none | some m ↦ some (c ∷ m.0, m.1) ]
    else if seen && c == b'='
    then some (c ∷ [], line_of s)
    else none

-- `re.match(r'(\+[A-Za-z0-9_]+=)(.*)', word)` with its groups.
unfoldable pub match_plusarg : Text → Option (Text × Text)
unfolding name_and_value
match_plusarg [] = none
match_plusarg (c ∷ s) =
    if c == b'+'
    then elim (name_and_value false s) [ none ↦ none | some m ↦ some (c ∷ m.0, m.1) ]
    else none

-- `pre` and `post`
unfoldable pub pre_and_post : Text → Text × Text
unfolding match_plusarg
pre_and_post word = elim (match_plusarg word) [ none ↦ ([], word) | some m ↦ m ]

-- The loop over the relocations: the first that is the same path counts.
unfoldable pub relocate : Text → Text → List (Text × Text) → Text
unfolding abs_path
relocate cwd post [] = post
relocate cwd post ((orig, reloc) ∷ relocs) =
    let later = relocate cwd post relocs in
    if text_eq (abs_path cwd orig) (abs_path cwd post) then reloc else later

-- The end of `reloc_word`.
unfoldable pub without_placeholder : Places → Text → Text → Result GenError Text
unfolding contains
without_placeholder a word reloc =
    if contains a.placeholder_dir reloc then raise (runtime_error word) else ok reloc

unfoldable pub reloc_word : Places → Text → Result GenError Text
unfolding sim_relocs always_relocs pre_and_post relocate without_placeholder
reloc_word a word = elim (lookup a.simulator (sim_relocs a)) [
  | none ↦ raise (key_error a.simulator)
  | some relocs ↦
      let (pre, post) = pre_and_post word in
      without_placeholder a word (pre ++ relocate a.cwd post (relocs ++ always_relocs a))
]

abbrev pub or_bad_line : Result ShlexError (List Text) → Result GenError (List Text)
or_bad_line (ok words) = ok words
or_bad_line (raise e) = raise (bad_line e)

-- The body of the loop over the lines; there are no commands of an empty line.
unfoldable pub reloc_lines : Places → List Text → Result GenError (List (List Text))
unfolding strip shlex_split reloc_word
reloc_lines a [] = ok []
reloc_lines a (line ∷ lines) =
    let rest = reloc_lines a lines in
    let with_line = (do
      words ← or_bad_line (shlex_split (strip line))
      cmd ← map_ok (reloc_word a) words
      cmds ← rest
      ok (cmd ∷ cmds)) in
    if text_eq (strip line) [] then rest else with_line

-- `reloc_commands`, on the text of `src`.
unfoldable pub reloc_commands : Places → Text → Result GenError (List (List Text))
unfolding reloc_lines split_on
reloc_commands a src = reloc_lines a (split_on 10 src)
