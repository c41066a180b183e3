-- ===== src/Tests/Requirements.antt =====
-- Tool versions, requirements and the exit code of their check.
use emucpu.Prelude.{
  ℕ, ◌+◌, true, false, ◌&&◌, ◌||◌, is_ok, [], ◌∷◌, some, ok, raise, all, ltb, ◌≡◌, ◌↔◌, refl,
}
use emucpu.Prelude.Dict.{Dict, lookup, keys, mem_text}
use emucpu.Prelude.Text.{Text, codes, text_eq}
use emucpu.IbexConfig.Value.{Value, boolean, text}
use emucpu.Requirements.Semver.{base}
use emucpu.Requirements.Check.{ToolReq, World, check}
use emucpu.Requirements.Check.Good.{IsGood, HasVersion, check-HasVersion}
use emucpu.Requirements.Read.{dict_to_tool_req}
use emucpu.Requirements.Read.Accepts.{is_text, is_absent_or_bool, dict_to_tool_req-is_ok}
use emucpu.Requirements.Main.{check_requirements}
use emucpu.Requirements.Main.Exit.{all_good, check_requirements-exit_code}

-- A machine whose versions are compared by the length of their text.
abbrev machine : World ℕ
machine = record {
  run = λ cmd. ok (codes "Tool 1.22\n");
  import_version = λ m. raise m;
  parse = λ v. some (length_of v);
  older = ltb;
}
  where
    length_of : Text → ℕ
    length_of [] = 0
    length_of (c ∷ s) = length_of s + 1

abbrev simple : ToolReq
simple = record {
  tool = codes "tool";
  min_version = codes "1.9";
  as_needed = false;
  tool_class = base;
}

check-HasVersion_example : IsGood machine simple ↔ HasVersion machine simple
check-HasVersion_example = check-HasVersion machine simple

abbrev raw : Dict Value
raw = (codes "min_version", text (codes "2020.03-SP2")) ∷ (codes "as_needed", boolean true) ∷ []

dict_to_tool_req-is_ok_example :
    is_ok (dict_to_tool_req (codes "vcs") raw)
    ≡ is_text (lookup (codes "min_version") raw)
      && is_absent_or_bool (lookup (codes "as_needed") raw)
      && all
          (λ k. text_eq k (codes "min_version") || text_eq k (codes "as_needed") || false)
          (keys raw)
unfolding lookup text_eq
dict_to_tool_req-is_ok_example = dict_to_tool_req-is_ok (codes "vcs") raw (refl, (refl, tt))

check_requirements-exit_code_example :
    (code : ℕ) × (check_requirements machine ((codes "tool", simple) ∷ []) (codes "tool" ∷ [])
      ≡ ok code)
    × ((code ≡ 0) ↔ (
        all_good machine (codes "tool" ∷ []) ((codes "tool", simple) ∷ [])
          && all (λ t. mem_text t (codes "tool" ∷ [])) (codes "tool" ∷ [])
        ≡ true))
unfolding lookup check
check_requirements-exit_code_example =
    check_requirements-exit_code machine ((codes "tool", simple) ∷ []) (codes "tool" ∷ [])
      (refl, tt) (refl, tt)
