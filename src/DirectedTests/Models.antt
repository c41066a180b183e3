-- ===== src/DirectedTests/Models.antt =====
-- The fields of a model, and its paths.
use emucpu.Prelude.{
  Bool, true, false, if◌then◌else◌, List, [], ◌∷◌, Option, none, some, Result, ok, raise,
  bind-eq-ok, ◌≡◌, refl, sym, ap, ◌∙◌, Bool-cases, inl, inr,
}
use mathlib.Core.Path.{subst}
use emucpu.Prelude.Text.{Text, text_eq, text_eq_iff}
use emucpu.Prelude.Dict.{Dict, lookup, keys, mem_text}
use emucpu.IbexConfig.Value.{Value, text}
use emucpu.DirectedTests.{
  ImportError, exit_1, or_exit, is_path, Validation, model_of, validate_path_exists, check_paths,
}

-- Two lists of the same length, related entry by entry.
abbrev pub Pairs {ℓ κ} : {A : Type ℓ} {B : Type κ} → (A → B → Type 0) → List A → List B → Type 0
Pairs R [] [] = Unit
Pairs R (x ∷ xs) (y ∷ ys) = R x y × Pairs R xs ys
Pairs R _ _ = ⊥

or_exit-some : {A : Type 0} (o : Option A) {a : A} → or_exit o ≡ ok a → o ≡ some a
or_exit-some none e = absurd cc
or_exit-some (some b) e = cc

-- A model has its fields in their order, each with what is made of the entry's value.
pub model_of_lem :
    (f : Text → Value → Option Value) (ks : List Text) (i : Dict Value) {m : Dict Value}
    → model_of f ks i ≡ ok m
    → (keys m ≡ ks)
      × ((k : Text)
          → mem_text k ks ≡ true
          → (x : Value) × (z : Value) × (lookup k i ≡ some x)
            × (f k x ≡ some z)
            × (lookup k m ≡ some z))
unfolding model_of lookup mem_text
model_of_lem f [] i {m} e = let same : [] ≡ m = cc in (ap keys (sym same), λ k there. absurd cc)
model_of_lem f (j ∷ ks) i {m} e =
    let (v, found, more) = bind-eq-ok (or_exit (lookup j i)) _ e in
    let (x, made, last) = bind-eq-ok (or_exit (f j v)) _ more in
    let (fields, rest, joined) = bind-eq-ok (model_of f ks i) _ last in
    let same : (j, x) ∷ fields ≡ m = cc in
    let (order, values) = model_of_lem f ks i rest in
    (
      ap keys (sym same) ∙ ap (λ l. j ∷ l) order,
      λ k there. elim (Bool-cases (text_eq j k)) [
        | inl here ↦
            let equal : j ≡ k = (text_eq_iff j k).0 here in
            (
              v,
              x,
              rw (sym equal) (or_exit-some (lookup j i) found),
              rw (sym equal) (or_exit-some (f j v) made),
              subst (λ l. lookup k l ≡ some x) same (rw here refl),
            )
        | inr elsewhere ↦
            let (y, z, was, got, kept) = values k (rw elsewhere at there) in
            (y, z, was, got, subst (λ l. lookup k l ≡ some z) same (rw elsewhere kept))
      ],
    )

-- A path that is there becomes one beside the file; any other value stays.
abbrev pub IsPlaced : Validation → Text → Bool → Value → Value → Type 0
IsPlaced v yaml true z y =
    (p : Text) × (z ≡ text p)
    × (v.exists (v.in_parent yaml p) ≡ true)
    × (y ≡ text (v.in_parent yaml p))
IsPlaced v yaml false z y = y ≡ z

validate_path_exists_lem :
    (v : Validation) (yaml : Text) (z : Value) {y : Value}
    → validate_path_exists v yaml z ≡ ok y
    → IsPlaced v yaml true z y
unfolding validate_path_exists
validate_path_exists_lem v yaml (text p) {y} e = elim (Bool-cases (v.exists (v.in_parent yaml p))) [
  | inl there ↦
      let placed : Result ImportError Value = ok (text (v.in_parent yaml p)) in
      let returned : placed ≡ ok y = rw there at e in (p, refl, there, cc)
  | inr missing ↦
      let refused : Result ImportError Value = raise exit_1 in
      let clash : refused ≡ ok y = rw missing at e in absurd cc
]
validate_path_exists_lem v yaml _ e = absurd cc

placed :
    (v : Validation) (yaml : Text) (b : Bool) (x : Value) {y : Value}
    → (if b then validate_path_exists v yaml x else ok x) ≡ ok y
    → IsPlaced v yaml b x y
placed v yaml true x e = validate_path_exists_lem v yaml x e
placed v yaml false x e = cc

pub check_paths_lem :
    (v : Validation) (yaml : Text) (m : Dict Value) {out : Dict Value}
    → check_paths v yaml m ≡ ok out
    → (keys out ≡ keys m)
      × ((k : Text) (z : Value)
          → lookup k m ≡ some z
          → (y : Value) × IsPlaced v yaml (is_path k) z y × (lookup k out ≡ some y))
unfolding check_paths lookup
check_paths_lem v yaml [] {out} e =
    let same : [] ≡ out = cc in (ap keys (sym same), λ k z there. absurd cc)
check_paths_lem v yaml ((j, x) ∷ m) {out} e =
    let (y, set, more) =
      bind-eq-ok (if is_path j then validate_path_exists v yaml x else ok x) _ e in
    let (fields, rest, joined) = bind-eq-ok (check_paths v yaml m) _ more in
    let same : (j, y) ∷ fields ≡ out = cc in
    let (order, values) = check_paths_lem v yaml m rest in
    (
      ap keys (sym same) ∙ ap (λ l. j ∷ l) order,
      λ k z there. elim (Bool-cases (text_eq j k)) [
        | inl here ↦
            let equal : j ≡ k = (text_eq_iff j k).0 here in
            let found : some x ≡ some z = rw here at there in
            let value : x ≡ z = cc in
            (
              y,
              subst (λ i. IsPlaced v yaml (is_path i) z y) equal
                  (subst (λ w. IsPlaced v yaml (is_path j) w y) value
                    (placed v yaml (is_path j) x set)),
              subst (λ l. lookup k l ≡ some y) same (rw here refl),
            )
        | inr elsewhere ↦
            let (w, put, kept) = values k z (rw elsewhere at there) in
            (w, put, subst (λ l. lookup k l ≡ some w) same (rw elsewhere kept))
      ],
    )
