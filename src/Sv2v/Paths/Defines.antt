-- ===== src/Sv2v/Paths/Defines.antt =====
-- What `--define-if` accepts.
use emucpu.Prelude.{
  ℕ, Bool, true, not, ◌==◌, [], ◌∷◌, ◌++◌, all, Option, none, some, Result, ok, raise, arith, ◌≡◌,
  ◌↔◌, refl, Option-cases, inl, inr,
}
use emucpu.Prelude.Text.{Text}
use emucpu.Sv2v.Paths.{Search, DefineError, bad_regex, split_last_colon, parse_define_if}

abbrev pub is_not_colon : ℕ → Bool
is_not_colon c = not (c == b':')

split_last_colon-none : (s : Text) → (split_last_colon s ≡ none) ↔ (all is_not_colon s ≡ true)
unfolding split_last_colon
split_last_colon-none [] = (λ e. refl, λ e. refl)
split_last_colon-none (c ∷ s) = ground (arith, split_last_colon-none s)

split_last_colon-append :
    (pattern define : Text)
    → all is_not_colon define ≡ true
    → split_last_colon (pattern ++ (b':' ∷ define)) ≡ some (pattern, define)
unfolding split_last_colon
split_last_colon-append [] define h = rw ((split_last_colon-none define).1 h) refl
split_last_colon-append (c ∷ pattern) define h = rw (split_last_colon-append pattern define h) refl

-- What becomes of a pattern and a define.
abbrev pub compiled : Text → Text → Option Search → Result DefineError (Search × Text)
compiled pattern define none = raise (bad_regex pattern)
compiled pattern define (some search) = ok (search, define)

-- A pattern and a define without a colon that a colon joins are taken apart as they were, whatever
-- colons the pattern has, and are refused exactly if the pattern does not compile.
pub parse_define_if-compiled :
    (compile : Text → Option Search) (pattern define : Text)
    → all is_not_colon define ≡ true
    → parse_define_if compile (pattern ++ (b':' ∷ define))
      ≡ compiled pattern define (compile pattern)
unfolding parse_define_if
parse_define_if-compiled compile pattern define h =
    let parts = split_last_colon-append pattern define h in
    elim (Option-cases (compile pattern)) [
      | inl e ↦ rw (parse_define_if, parts, e) refl
      | inr (search, e) ↦ rw (parse_define_if, parts, e) refl
    ]
