-- ===== src/Requirements/Main.antt =====
-- `main` of util/check_tool_requirements.py: which tools are checked, and the exit code.
pub mod Exit
use emucpu.Prelude.{
  ℕ, Bool, true, false, not, ◌&&◌, if◌then◌else◌, List, [], ◌∷◌, ◌++◌, Option, none, some, Result,
  ok, raise, select,
}
use emucpu.Prelude.Dict.{Dict, mem_text}
use emucpu.Prelude.Text.{Text, text_eq}
use emucpu.IbexConfig.Value.{Value}
use emucpu.Requirements.Check.{ToolReq, World, GetError, CheckMessage, check}
use emucpu.Requirements.Read.{read_tool_requirements}

-- `pending_tools.discard(tool)`
unfoldable pub discard : Text → List Text → List Text
discard tool pending = select (λ t. not (text_eq t tool)) pending

pub record Progress : Type 0 where
  pub pending_tools : List Text
  pub missing_tools : List Text

-- A tool that was checked, with its verdict.
abbrev pub checked : Text → Bool → Progress → Progress
checked tool good s = record {
  pending_tools = discard tool s.pending_tools;
  missing_tools = if good then s.missing_tools else s.missing_tools ++ tool ∷ [];
}

-- `return 0 if all_good else 1`
unfoldable pub exit_code_of : Progress → ℕ
exit_code_of s = elim s.missing_tools [
  | t ∷ ts ↦ 1
  | [] ↦ elim s.pending_tools [ [] ↦ 0 | t ∷ ts ↦ 1 ]
]

module _ {ℓ} {V : Type ℓ} (w : World V) where
  -- The loop over the requirements.
  unfoldable pub check_tools : Dict ToolReq → Progress → Result GetError Progress
  unfolding discard
  check_tools [] s = ok s
  check_tools ((tool, req) ∷ reqs) s =
      if req.as_needed && not (mem_text tool s.pending_tools)
      then check_tools reqs s
      else elim (check w req) [
        | raise e ↦ raise e
        | ok (good, msg) ↦ check_tools reqs (checked tool good s)
      ]

  unfoldable pub check_requirements : Dict ToolReq → List Text → Result GetError ℕ
  unfolding check_tools exit_code_of
  check_requirements reqs tools =
      elim (check_tools reqs (record { pending_tools = tools; missing_tools = [] })) [
        | raise e ↦ raise e
        | ok s ↦ ok (exit_code_of s)
      ]

  -- `main`, on the requirements as they are loaded and the tools of the command line.
  unfoldable pub main : Option Value → List Text → Result GetError ℕ
  unfolding check_requirements read_tool_requirements
  main raw tools = elim (read_tool_requirements raw) [
    | raise e ↦ ok 1
    | ok reqs ↦ check_requirements reqs tools
  ]
