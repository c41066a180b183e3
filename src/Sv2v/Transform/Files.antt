-- ===== src/Sv2v/Transform/Files.antt =====
-- The temporary files stand apart from all others, and from each other.
use emucpu.Prelude.{
  ℕ, true, false, not, [], ◌∷◌, ◌++◌, select, arith, ◌≡◌, ◌≢◌, refl, sym, ap, ◌∙◌, Bool-cases, inl,
  inr,
}
use emucpu.Prelude.Text.{Text, text_eq, text_eq_iff, show_nat, starts_with-append}
use emucpu.Prelude.Dict.{lookup, insert, lookup-insert}
use emucpu.TestEntry.RoundTrip.{value-show_nat}
use emucpu.Requirements.Semver.{value}
use emucpu.Sv2v.Transform.{Store, World, temp_dir, temp_path, is_temp}

pub temp_path-is_temp : (w : World) (i : ℕ) → is_temp w (temp_path w i) ≡ true
unfolding is_temp temp_path
temp_path-is_temp w i = starts_with-append (temp_dir w) (show_nat i)

pub append_cancel : (a b c : Text) → a ++ b ≡ a ++ c → b ≡ c
append_cancel [] b c e = e
append_cancel (x ∷ a) b c e = append_cancel a b c cc

pub temp_path-distinct :
    (w : World) (i j : ℕ) → i ≢ j → text_eq (temp_path w i) (temp_path w j) ≡ false
unfolding temp_path
temp_path-distinct w i j l = elim (Bool-cases (text_eq (temp_path w i) (temp_path w j))) [
  | inr other ↦ other
  | inl same ↦
      let equal =
        append_cancel (temp_dir w) (show_nat i) (show_nat j)
          ((text_eq_iff (temp_path w i) (temp_path w j)).0 same) in
      let same_index : i ≡ j = sym (value-show_nat i) ∙ ap value equal ∙ value-show_nat j in
      absurd (l same_index)
]

pub temp_distinct :
    (w : World) (a b : Text) → is_temp w a ≡ true → is_temp w b ≡ false → text_eq a b ≡ false
temp_distinct w a b h k = elim (Bool-cases (text_eq a b)) [
  | inr other ↦ other
  | inl same ↦ let equal = (text_eq_iff a b).0 same in absurd cc
]

-- The files outside the temporary directory are the same.
abbrev pub Agree : World → Store → Store → Type 0
Agree w s t = (p : Text) → is_temp w p ≡ false → lookup p s ≡ lookup p t

pub insert-Agree :
    (w : World) (s t : Store) (path content : Text)
    → is_temp w path ≡ true
    → Agree w s t
    → Agree w s (insert path content t)
insert-Agree w s t path content h agree p out =
    rw (lookup-insert path p content t, temp_distinct w path p h out) (agree p out)

pub lookup-select :
    (w : World) (p : Text) (s : Store)
    → is_temp w p ≡ false
    → lookup p (select (λ file. not (is_temp w file.0)) s) ≡ lookup p s
unfolding lookup
lookup-select w p [] out = refl
lookup-select w p ((k, v) ∷ s) out = elim (Bool-cases (is_temp w k)) [
  | inl inside ↦ ground (arith, lookup-select w p s out, temp_distinct w k p inside out)
  | inr outside ↦ ground (arith, lookup-select w p s out)
]
