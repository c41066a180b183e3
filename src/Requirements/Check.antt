-- ===== src/Requirements/Check.antt =====
-- `ToolReq.get_version` and `ToolReq.check`. Messages are data: what they report is kept, not how
-- it is worded.
pub mod Good
use emucpu.Prelude.{
  ℕ, Bool, true, false, not, ◌&&◌, ◌==◌, leb, if◌then◌else◌, List, [], ◌∷◌, ◌++◌, Option, none,
  some, Result, ok, raise, ◌>>=◌,
}
use emucpu.Prelude.Text.{Text, codes, strip, strip_right, is_space}
use emucpu.Requirements.Semver.{
  ToolClass, base, edalize, vcs, verible, verilator, vivado, ninja, SemverError, drop_prefix,
  to_semver,
}

pub record ToolReq : Type 0 where
  pub tool : Text
  pub min_version : Text
  pub as_needed : Bool
  pub tool_class : ToolClass

-- A `RuntimeError`, which `check` catches, and any other exception, which it does not.
pub data GetError : Type 0 where
  failed_to_run : Text → GetError
  no_output : GetError
  bad_output : GetError
  index_error : GetError

-- A character in front of the first word.
abbrev pub put : ℕ → List Text → List Text
put d [] = (d ∷ []) ∷ []
put d (w ∷ ws) = (d ∷ w) ∷ ws

-- `s.split(sep)` for one character.
unfoldable pub split_on : ℕ → Text → List Text
split_on sep [] = [] ∷ []
split_on sep (c ∷ s) = let words = split_on sep s in if c == sep then [] ∷ words else put c words

-- What stands before the last white space, and what stands behind it.
unfoldable pub last_space : Text → Option (Text × Text)
unfolding is_space
last_space [] = none
last_space (c ∷ s) = elim (last_space s) [
  | some (a, b) ↦ some (c ∷ a, b)
  | none ↦ if is_space c then some ([], s) else none
]

-- `s.rsplit(None, 1)[-1]`, where there is a word.
unfoldable pub last_word : Text → Option Text
unfolding strip last_space
last_word s = elim (strip s) [
  | [] ↦ none
  | c ∷ w ↦ elim (last_space (c ∷ w)) [ none ↦ some (c ∷ w) | some (a, b) ↦ some b ]
]

-- `Compiler version = VCS [A-Z]-(.*)`
unfoldable pub vcs_regex : Text → Option Text
unfolding drop_prefix
vcs_regex line = elim (drop_prefix (codes "Compiler version = VCS ") line) [
  | none ↦ none
  | some [] ↦ none
  | some (c ∷ s) ↦ if leb b'A' c && leb c b'Z' then drop_prefix (codes "-") s else none
]

-- `Vivado v(.*)\s`, where `.*` takes all it can.
unfoldable pub vivado_regex : Text → Option Text
unfolding drop_prefix last_space
vivado_regex line = elim (drop_prefix (codes "Vivado v") line) [
  | none ↦ none
  | some s ↦ elim (last_space s) [ none ↦ none | some (a, b) ↦ some a ]
]

unfoldable pub version_regex : ToolClass → Option (Text → Option Text)
unfolding vcs_regex vivado_regex
version_regex vcs = some vcs_regex
version_regex vivado = some vivado_regex
version_regex _ = none

-- The first line that matches.
unfoldable pub first_match : (Text → Option Text) → List Text → Option Text
unfolding strip_right
first_match regex [] = none
first_match regex (line ∷ lines) = elim (regex (strip_right line)) [
  | some version ↦ some version
  | none ↦ first_match regex lines
]

abbrev first_line : List Text → Text
first_line [] = []
first_line (line ∷ lines) = line

-- `_parse_version_output`; none for its `ValueError`.
unfoldable pub parse_version_output : ToolClass → Text → Option Text
unfolding version_regex split_on last_word first_match
parse_version_output c stdout = elim (version_regex c) [
  | none ↦ last_word (first_line (split_on 10 stdout))
  | some regex ↦ first_match regex (split_on 10 stdout)
]

-- `_get_tool_cmd`
unfoldable pub get_tool_cmd : ToolReq → List Text
get_tool_cmd req = elim req.tool_class [
  | verible ↦ codes "verible-verilog-lint" ∷ codes "--version" ∷ []
  | vivado ↦ codes "vivado" ∷ codes "-version" ∷ []
  | vcs ↦ codes "vcs" ∷ codes "-full64" ∷ codes "-ID" ∷ []
  | ninja ↦ codes "ninja" ∷ codes "--version" ∷ []
  | _ ↦ req.tool ∷ codes "--version" ∷ []
]

-- `VerilatorToolReq.get_version`, on the output.
unfoldable pub verilator_version : Text → Result GetError Text
unfolding split_on strip
verilator_version stdout = elim (split_on b' ' stdout) [
  | first ∷ second ∷ rest ↦ ok (strip second)
  | _ ↦ raise index_error
]

unfoldable pub output_version : ToolClass → Text → Result GetError Text
unfolding parse_version_output
output_version c [] = raise no_output
output_version c (x ∷ s) = elim (parse_version_output c (x ∷ s)) [
  | none ↦ raise bad_output
  | some version ↦ ok version
]

-- What `check` reports.
pub data CheckMessage : Type 0 where
  bad_requirement : CheckMessage
  bad_required_semver : Text → CheckMessage
  no_version : GetError → CheckMessage
  bad_installed : CheckMessage
  bad_installed_semver : Text → CheckMessage
  too_old : Text → Text → CheckMessage
  recent_enough : Text → Text → CheckMessage

-- `run` is a command's standard output or the text of the exception, and `import_version` the
-- attribute of the imported Python module; `parse` and `older` are `packaging`'s versions.
pub record World {ℓ} (V : Type ℓ) : Type ℓ where
  pub run : List Text → Result Text Text
  pub import_version : Text → Result Text Text
  pub parse : Text → Option V
  pub older : V → V → Bool

module _ {ℓ} {V : Type ℓ} (w : World V) where
  unfoldable pub run_tool : List Text → Result GetError Text
  run_tool cmd = elim (w.run cmd) [ raise e ↦ raise (failed_to_run e) | ok stdout ↦ ok stdout ]

  -- `get_version`, with the two overrides.
  unfoldable pub get_version : ToolReq → Result GetError Text
  unfolding get_tool_cmd verilator_version output_version run_tool
  get_version req = elim req.tool_class [
    | edalize ↦ elim (w.import_version (req.tool ++ codes ".version")) [
      | raise e ↦ raise (failed_to_run e)
      | ok version ↦ ok version
    ]
    | verilator ↦ run_tool (codes "verilator" ∷ codes "--version" ∷ []) >>= verilator_version
    | c ↦ run_tool (get_tool_cmd req) >>= output_version c
  ]

  -- The end of `check`, on the two versions.
  unfoldable pub compare_versions : ToolReq → Text → V → V → Bool × CheckMessage
  compare_versions req actual actual_sv min_sv =
      if w.older actual_sv min_sv
      then (false, too_old actual req.min_version)
      else (true, recent_enough actual req.min_version)

  unfoldable pub check_installed : ToolReq → V → Text → Bool × CheckMessage
  unfolding to_semver compare_versions
  check_installed req min_sv actual = elim (to_semver req.tool_class actual false) [
    | raise e ↦ (false, bad_installed)
    | ok semver ↦ elim (w.parse semver) [
      | none ↦ (false, bad_installed_semver semver)
      | some actual_sv ↦ compare_versions req actual actual_sv min_sv
    ]
  ]

  -- `check` from where the installed version is asked for; an `IndexError` is not caught.
  unfoldable pub check_version :
      ToolReq → V → Result GetError Text → Result GetError (Bool × CheckMessage)
  unfolding check_installed
  check_version req min_sv (ok actual) = ok (check_installed req min_sv actual)
  check_version req min_sv (raise index_error) = raise index_error
  check_version req min_sv (raise e) = ok (false, no_version e)

  -- `check`
  unfoldable pub check : ToolReq → Result GetError (Bool × CheckMessage)
  unfolding to_semver get_version check_version
  check req = elim (to_semver req.tool_class req.min_version true) [
    | raise e ↦ ok (false, bad_requirement)
    | ok semver ↦ elim (w.parse semver) [
      | none ↦ ok (false, bad_required_semver semver)
      | some min_sv ↦ check_version req min_sv (get_version req)
    ]
  ]
