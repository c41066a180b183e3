-- ===== src/Requirements/Main/Exit.antt =====
-- The exit code of the check.
use emucpu.Prelude.{
  ℕ, Bool, true, false, not, ◌&&◌, ◌||◌, List, [], ◌∷◌, none, ok, raise, all, All, is_ok, arith,
  ◌≡◌, ◌↔◌, refl, Bool-cases, Result-cases, inl, inr,
}
use emucpu.Prelude.Dict.{Dict, lookup, keys, mem_text, DistinctKeys}
use emucpu.Prelude.Text.{Text, text_eq, text_eq_iff}
use emucpu.Requirements.Check.{ToolReq, World, check}
use emucpu.Requirements.Main.{
  discard, Progress, checked, exit_code_of, check_tools, check_requirements,
}

abbrev is_nil : List Text → Bool
is_nil [] = true
is_nil (x ∷ xs) = false

-- The tool is checked: it is always needed, or named on the command line.
abbrev pub needed : List Text → Text × ToolReq → Bool
needed tools (tool, req) = not (req.as_needed && not (mem_text tool tools))

mem_text-discard :
    (tool j : Text) (pending : List Text)
    → text_eq tool j ≡ false
    → mem_text j (discard tool pending) ≡ mem_text j pending
unfolding mem_text discard
mem_text-discard tool j [] h = refl
mem_text-discard tool j (t ∷ pending) h = ground (
  arith,
  mem_text-discard tool j pending,
  text_eq_iff t tool,
  text_eq_iff t j,
  text_eq_iff tool j,
)

module _ {ℓ} {V : Type ℓ} (w : World V) where
  abbrev pub is_good : ToolReq → Bool
  is_good req = elim (check w req) [ ok v ↦ v.0 | raise e ↦ false ]

  -- Every needed tool of the list is good.
  abbrev pub all_good : List Text → Dict ToolReq → Bool
  all_good tools reqs = all (λ e. not (needed tools e) || is_good e.1) reqs

  all_good-discard :
      (tool : Text) (pending : List Text) (reqs : Dict ToolReq)
      → lookup tool reqs ≡ none
      → all_good (discard tool pending) reqs ≡ all_good pending reqs
  unfolding lookup
  all_good-discard tool pending [] h = refl
  all_good-discard tool pending ((k, req) ∷ reqs) h = ground (
    arith,
    all_good-discard tool pending reqs,
    mem_text-discard tool k pending,
    text_eq_iff tool k,
    text_eq_iff k tool,
  )

  abbrev all_known : List Text → List Text → Bool
  all_known ks tools = all (λ t. mem_text t ks) tools

  all_known-nil : (pending : List Text) → is_nil pending ≡ all_known [] pending
  unfolding mem_text
  all_known-nil [] = refl
  all_known-nil (t ∷ pending) = refl

  all_known-skip :
      (tool : Text) (ks pending : List Text)
      → mem_text tool pending ≡ false
      → all_known (tool ∷ ks) pending ≡ all_known ks pending
  unfolding mem_text
  all_known-skip tool ks [] h = refl
  all_known-skip tool ks (t ∷ pending) h =
      ground (arith, all_known-skip tool ks pending, text_eq_iff tool t, text_eq_iff t tool)

  all_known-discard :
      (tool : Text) (ks pending : List Text)
      → all_known ks (discard tool pending) ≡ all_known (tool ∷ ks) pending
  unfolding discard mem_text
  all_known-discard tool ks [] = refl
  all_known-discard tool ks (t ∷ pending) =
      ground (arith, all_known-discard tool ks pending, text_eq_iff tool t, text_eq_iff t tool)

  check_tools-progress :
      (reqs : Dict ToolReq) (s : Progress)
      → DistinctKeys reqs
      → All (λ e. is_ok (check w e.1) ≡ true) reqs
      → (s' : Progress) × (check_tools w reqs s ≡ ok s')
        × (is_nil s'.missing_tools ≡ is_nil s.missing_tools && all_good s.pending_tools reqs)
        × (is_nil s'.pending_tools ≡ all_known (keys reqs) s.pending_tools)
  unfolding check_tools
  check_tools-progress [] s u r = (s, refl, ground arith, all_known-nil s.pending_tools)
  check_tools-progress ((tool, req) ∷ reqs) s (u, us) (r, rs) =
      elim (Bool-cases (req.as_needed && not (mem_text tool s.pending_tools))) [
        | inl skip ↦
            let (s', ran, missing, pending) = check_tools-progress reqs s us rs in
            (
              s',
              ground arith,
              ground arith,
              ground (arith, all_known-skip tool (keys reqs) s.pending_tools),
            )
        | inr go ↦ elim (Result-cases (check w req)) [
          | inr (e, bad) ↦ absurd (ground arith)
          | inl ((good, msg), found) ↦
              let (s', ran, missing, pending) =
                check_tools-progress reqs (checked tool good s) us rs in
              (
                s',
                ground arith,
                ground (arith, all_good-discard tool s.pending_tools reqs u),
                ground (arith, all_known-discard tool (keys reqs) s.pending_tools),
              )
        ]
      ]

  -- If no check ends in an exception, the exit code is 0 exactly if every requirement that is not
  -- `as_needed`, or that the command line names, is met and the command line names no other tool.
  pub check_requirements-exit_code :
      (reqs : Dict ToolReq) (tools : List Text)
      → DistinctKeys reqs
      → All (λ e. is_ok (check w e.1) ≡ true) reqs
      → (code : ℕ) × (check_requirements w reqs tools ≡ ok code)
        × ((code ≡ 0) ↔ (all_good tools reqs && all (λ t. mem_text t (keys reqs)) tools ≡ true))
  unfolding check_requirements
  check_requirements-exit_code reqs tools u r =
      let (s', ran, missing, pending) =
        check_tools-progress reqs (record { pending_tools = tools; missing_tools = [] }) u r in
      (exit_code_of s', ground arith, ground arith)
