-- ===== src/Sv2v/Transform/Untouched.antt =====
-- What no transformation touches, and what a failed one leaves.
use emucpu.Prelude.{
  ℕ, suc, ◌<◌, true, false, List, [], ◌∷◌, ◌++◌, Option, none, some, arith, ◌≡◌, refl, sym, ◌∙◌,
  Bool-cases, Option-cases, inl, inr,
}
use emucpu.Prelude.Int.{ℤ}
use emucpu.Prelude.Text.{Text, text_eq}
use emucpu.Prelude.Dict.{lookup, insert, lookup-insert}
use emucpu.Sv2v.Transform.{
  Store, World, Fault, runtime_error, os_error, Outcome, then_run, Options, command, checked_run,
  transform_one, extra_defines, temp_path, run_all, copy_back, copy_all, is_temp, clean_up,
  transform,
}
use emucpu.Sv2v.Transform.Files.{
  Agree, temp_path-is_temp, temp_path-distinct, insert-Agree, lookup-select,
}

checked_run-Agree :
    (w : World) (o : Options) (s t : Store) (p dst : Text) (cmd : List Text) (r : Option (ℤ × Text))
    → is_temp w dst ≡ true
    → Agree w s t
    → Agree w s (checked_run o p cmd t dst r).0
unfolding checked_run
checked_run-Agree w o s t p dst cmd none h agree q k = agree q k
checked_run-Agree w o s t p dst cmd (some (code, out)) h agree q k =
    ground (arith, insert-Agree w s t dst out h agree q k)

pub transform_one-Agree :
    (w : World) (o : Options) (s t : Store) (defines : List Text) (p dst : Text)
    → is_temp w dst ≡ true
    → Agree w s t
    → Agree w s (transform_one w o defines p dst t).0
unfolding transform_one
transform_one-Agree w o s t defines p dst h agree = elim (Bool-cases (w.writable dst)) [
  | inr cannot ↦ rw (transform_one, cannot) agree
  | inl may ↦
      let cmd = command o defines p in
      let opened = insert dst [] t in
      rw (transform_one, may)
        (checked_run-Agree w o s opened p dst cmd (w.run cmd opened) h
          (insert-Agree w s t dst [] h agree))
]

checked_run-keeps :
    (o : Options) (p : Text) (cmd : List Text) (t : Store) (dst q : Text) (r : Option (ℤ × Text))
    → text_eq dst q ≡ false
    → lookup q (checked_run o p cmd t dst r).0 ≡ lookup q t
unfolding checked_run
checked_run-keeps o p cmd t dst q none other = refl
checked_run-keeps o p cmd t dst q (some (code, out)) other =
    ground (arith, lookup-insert dst q out t)

-- Only the file that the output goes to changes.
transform_one-keeps :
    (w : World) (o : Options) (t : Store) (defines : List Text) (p dst q : Text)
    → text_eq dst q ≡ false
    → lookup q (transform_one w o defines p dst t).0 ≡ lookup q t
unfolding transform_one
transform_one-keeps w o t defines p dst q other = elim (Bool-cases (w.writable dst)) [
  | inr cannot ↦ rw (transform_one, cannot) refl
  | inl may ↦
      let cmd = command o defines p in
      let opened = insert dst [] t in
      let still : lookup q opened ≡ lookup q t = rw (lookup-insert dst q [] t, other) refl in
      rw (transform_one, may)
        (checked_run-keeps o p cmd opened dst q (w.run cmd opened) other ∙ still)
]

pub then_run_ind {ℓ} :
    (P : Outcome → Type ℓ) (x : Outcome) (next : Store → Outcome)
    → (x.1 ≡ none → P (next x.0))
    → ((e : Fault) → x.1 ≡ some e → P (x.0, some e))
    → P (then_run x next)
unfolding then_run
then_run_ind P (s, none) next f g = f refl
then_run_ind P (s, some e) next f g = g e refl

-- However the first loop ends, it has touched temporary files only.
pub run_all-Agree :
    (w : World) (o : Options) (s : Store) (i : ℕ) (paths : List Text) (t : Store)
    → Agree w s t
    → Agree w s (run_all w o i paths t).0
unfolding run_all
run_all-Agree w o s i [] t agree = agree
run_all-Agree w o s i (p ∷ paths) t agree =
    let one = transform_one w o (o.defines ++ extra_defines o.defines_if p) p (temp_path w i) t in
    let after =
      transform_one-Agree w o s t (o.defines ++ extra_defines o.defines_if p) p (temp_path w i)
        (temp_path-is_temp w i) agree in
    then_run_ind (λ x. Agree w s x.0) one (λ u. run_all w o (suc i) paths u)
      (λ _. run_all-Agree w o s (suc i) paths one.0 after) (λ e _. after)

-- The temporary files of smaller indices stay.
pub run_all-keeps :
    (w : World) (o : Options) (j i : ℕ) (paths : List Text) (t : Store)
    → j < i
    → lookup (temp_path w j) (run_all w o i paths t).0 ≡ lookup (temp_path w j) t
unfolding run_all
run_all-keeps w o j i [] t l = refl
run_all-keeps w o j i (p ∷ paths) t l =
    let defines = o.defines ++ extra_defines o.defines_if p in
    let one = transform_one w o defines p (temp_path w i) t in
    let kept : lookup (temp_path w j) one.0 ≡ lookup (temp_path w j) t =
      transform_one-keeps w o t defines p (temp_path w i) (temp_path w j)
        (temp_path-distinct w i j (λ e. absurd (omega arith))) in
    then_run_ind (λ x. lookup (temp_path w j) x.0 ≡ lookup (temp_path w j) t) one
      (λ u. run_all w o (suc i) paths u)
      (λ _. run_all-keeps w o j (suc i) paths one.0 (omega arith) ∙ kept) (λ e _. kept)

copy_back-Agree :
    (w : World) (dst src p : Text) (t : Store)
    → text_eq src p ≡ false
    → lookup p (copy_back w dst src t).0 ≡ lookup p t
unfolding copy_back
copy_back-Agree w dst src p t other = elim (Option-cases (lookup dst t)) [
  | inl e ↦ rw (copy_back, e) refl
  | inr (content, e) ↦ elim (Bool-cases (w.writable src)) [
    | inl may ↦ rw (copy_back, e, may, lookup-insert src p content t, other) refl
    | inr cannot ↦ rw (copy_back, e, cannot) refl
  ]
]

-- The second loop does not run the tool.
abbrev pub OnlyOsError : Option Fault → Type 0
OnlyOsError none = Unit
OnlyOsError (some (runtime_error p code cmd)) = ⊥
OnlyOsError (some (os_error p)) = Unit

copy_back-OnlyOsError :
    (w : World) (dst src : Text) (t : Store) → OnlyOsError (copy_back w dst src t).1
unfolding copy_back
copy_back-OnlyOsError w dst src t = elim (Option-cases (lookup dst t)) [
  | inl e ↦ rw (copy_back, e) tt
  | inr (content, e) ↦ elim (Bool-cases (w.writable src)) [
    | inl may ↦ rw (copy_back, e, may) tt
    | inr cannot ↦ rw (copy_back, e, cannot) tt
  ]
]

copy_all-OnlyOsError :
    (w : World) (i : ℕ) (paths : List Text) (t : Store) → OnlyOsError (copy_all w i paths t).1
unfolding copy_all
copy_all-OnlyOsError w i [] t = tt
copy_all-OnlyOsError w i (p ∷ paths) t =
    let one = copy_back w (temp_path w i) p t in
    then_run_ind (λ x. OnlyOsError x.1) one (λ u. copy_all w (suc i) paths u)
      (λ _. copy_all-OnlyOsError w (suc i) paths one.0)
      (λ e failed. rw failed at (copy_back-OnlyOsError w (temp_path w i) p t))

clean_up-Agree : (w : World) (s : Store) (x : Outcome) → Agree w s x.0 → Agree w s (clean_up w x).0
unfolding clean_up
clean_up-Agree w s (t, e) agree q out = agree q out ∙ sym (lookup-select w q t out)

-- If the tool fails on any of the files, then no file outside the temporary directory has changed,
-- those that were already translated included.
pub transform_failed :
    (w : World) (o : Options) (paths : List Text) (s : Store) (p : Text) (code : ℤ)
    (cmd : List Text)
    → (transform w o paths s).1 ≡ some (runtime_error p code cmd)
    → Agree w s (transform w o paths s).0
unfolding transform clean_up
transform_failed w o paths s p code cmd =
    let first = run_all w o 0 paths s in
    then_run_ind (λ x. x.1 ≡ some (runtime_error p code cmd) → Agree w s (clean_up w x).0) first
      (λ t. copy_all w 0 paths t)
      (λ _ failed. absurd (rw failed at (copy_all-OnlyOsError w 0 paths first.0)))
      (λ e _ _. clean_up-Agree w s (first.0, some e) (run_all-Agree w o s 0 paths s (λ q _. refl)))
