-- ===== src/Conductor/Steps/Covered.antt =====
-- Which properties a strategy leaves out.
use emucpu.Prelude.{
  ℕ, Bool, true, false, select, Bool-cases, inl, inr, sym, ◌∙◌, not, ◌&&◌, List, [], ◌∷◌, map,
  arith, ◌≡◌, ◌↔◌, refl, ap, none, if_ind,
}
use emucpu.Prelude.Dict.{mem_text}
use emucpu.Prelude.Text.{Text, text_eq, text_eq_iff, text_eq_refl}
use emucpu.Conductor.Steps.{
  Strategy, covered, difference, missing_from, unaccounted, check_complete,
}

mem_text-difference :
    (k : Text) (props done : List Text)
    → mem_text k (difference props done) ≡ (mem_text k props && not (mem_text k done))
unfolding difference mem_text
mem_text-difference k [] done = refl
mem_text-difference k (p ∷ props) done = ground (
  arith,
  text_eq_iff p k,
  mem_text-difference k props done,
  mem_text-difference k props (p ∷ done),
)

-- No text stands twice.
abbrev pub Distinct : List Text → Type 0
Distinct [] = Unit
Distinct (k ∷ ks) = (mem_text k ks ≡ false) × Distinct ks

own :
    (p : Text) (props done : List Text) → (mem_text p props && not (mem_text p (p ∷ done))) ≡ false
unfolding mem_text
own p props done = ground (arith, text_eq_refl p)

difference-Distinct : (props done : List Text) → Distinct (difference props done)
unfolding difference
difference-Distinct [] done = tt
difference-Distinct (p ∷ props) done =
    if_ind Distinct (mem_text p done) {x = difference props done}
      (λ _. difference-Distinct props done) (λ _. (absent, difference-Distinct props (p ∷ done)))
  where
    absent : mem_text p (difference props (p ∷ done)) ≡ false
    absent = rw (mem_text-difference p props (p ∷ done)) (own p props done)

-- The properties that are still to be proved are those asked for that no step of the strategy
-- covers, each of them once however often it was asked for.
pub missing_from_lem :
    (strategy : List Strategy) (props : List Text)
    → ((k : Text)
        → mem_text k (missing_from strategy props)
          ≡ (mem_text k props && not (mem_text k (covered strategy))))
      × Distinct (missing_from strategy props)
unfolding missing_from
missing_from_lem strategy props = (
  λ k. mem_text-difference k props (covered strategy),
  difference-Distinct props (covered strategy),
)

mem_nil : (k : Text) → mem_text k [] ≡ false
unfolding mem_text
mem_nil k = refl

nil_of_no_member : (ks : List Text) → ((k : Text) → mem_text k ks ≡ false) → ks ≡ []
unfolding mem_text
nil_of_no_member [] h = refl
nil_of_no_member (k ∷ ks) h = ground (arith, h k, text_eq_refl k)

difference-nil :
    (props done : List Text)
    → (difference props done ≡ []) ↔ ((k : Text) → mem_text k props ≡ true → mem_text k done ≡ true)
difference-nil props done = (
  λ e k m. ground (arith, mem_text-difference k props done, ap (mem_text k) e, mem_nil k),
  λ h.
      nil_of_no_member (difference props done)
        (λ k. ground (arith, h k, mem_text-difference k props done)),
)

-- The completeness check passes exactly if every property is covered by some step of the
-- strategies; otherwise it exits with code 1.
pub check_complete-covered :
    (all_props : List (ℕ × Text)) (strategies : List Strategy)
    → (check_complete all_props strategies ≡ none) ↔ (
        (k : Text)
        → mem_text k (map (λ p. p.1) all_props) ≡ true
        → mem_text k (covered strategies) ≡ true)
unfolding check_complete
check_complete-covered all_props strategies =
    let left = difference-nil (map (λ p. p.1) all_props) (covered strategies) in
    (λ e. left.0 (ground arith), λ h. rw (left.1 h, check_complete))

mem_text-select :
    (p : Text → Bool) (k : Text) (ks : List Text)
    → mem_text k (select p ks) ≡ (mem_text k ks && p k)
unfolding mem_text
mem_text-select p k [] = refl
mem_text-select p k (j ∷ ks) = elim (Bool-cases (text_eq j k)) [
  | inl same ↦
      let here : j ≡ k = (text_eq_iff j k).0 same in
      let agree : p j ≡ p k = ap p here in ground (arith, mem_text-select p k ks)
  | inr other ↦ ground (arith, mem_text-select p k ks)
]

-- The properties that the report on a step lists as unaccounted for are those that a search for
-- missing proofs would take up.
pub unaccounted-missing_from :
    (strategy : List Strategy) (props : List Text) (k : Text)
    → mem_text k (unaccounted strategy props) ≡ mem_text k (missing_from strategy props)
unfolding unaccounted
unaccounted-missing_from strategy props k =
    mem_text-select (λ prop. not (mem_text prop (covered strategy))) k props
    ∙ sym ((missing_from_lem strategy props).0 k)
