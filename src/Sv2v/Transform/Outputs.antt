-- ===== src/Sv2v/Transform/Outputs.antt =====
-- What a transformation comes to on files that may be written, with a tool that does not look at
-- the temporary directory.
use emucpu.Prelude.{
  ℕ, suc, true, false, if◌then◌else◌, List, [], ◌∷◌, ◌++◌, All, Option, none, some, arith, ◌≡◌,
  refl, sym, ap, if_ind, ◌∙◌, Bool-cases, inl, inr,
}
use emucpu.Prelude.Int.{ℤ, pos, int_eq}
use emucpu.Prelude.Text.{Text, text_eq, text_eq_iff, text_eq_refl}
use emucpu.Prelude.Dict.{lookup, insert, lookup-insert, mem_text}
use emucpu.Sv2v.Transform.{
  Store, World, Fault, runtime_error, os_error, then_run, Options, command, checked_run,
  transform_one, extra_defines, temp_path, run_all, copy_back, copy_all, is_temp, clean_up,
  transform,
}
use emucpu.Sv2v.Transform.Files.{
  Agree, temp_path-is_temp, temp_distinct, insert-Agree, lookup-select,
}
use emucpu.Sv2v.Transform.Untouched.{
  then_run_ind, transform_one-Agree, run_all-Agree, run_all-keeps,
}

-- The command for a file.
abbrev pub command_of : Options → Text → List Text
command_of o p = command o (o.defines ++ extra_defines o.defines_if p) p

abbrev pub output_of : Option (ℤ × Text) → Text
output_of none = []
output_of (some (code, out)) = out

-- What the tool makes of a file, among the files as they are at first.
abbrev pub translated : World → Options → Store → Text → Text
translated w o s p = output_of (w.run (command_of o p) s)

abbrev pub fault_of : Options → Text → Option (ℤ × Text) → Option Fault
fault_of o p none = some (os_error o.sv2v)
fault_of o p (some (code, out)) =
    if int_eq code (pos 0) then none else some (runtime_error p code (command_of o p))

abbrev pub or_else : Option Fault → Option Fault → Option Fault
or_else none later = later
or_else (some e) later = some e

-- The first trouble that the tool has with one of the files, each as it is at first.
abbrev pub first_fault : World → Options → Store → List Text → Option Fault
first_fault w o s [] = none
first_fault w o s (p ∷ paths) =
    or_else (fault_of o p (w.run (command_of o p) s)) (first_fault w o s paths)

-- The tool sees only what lies outside the temporary directory.
abbrev pub IsBlind : World → Store → Type 0
IsBlind w s = (cmd : List Text) (t : Store) → Agree w s t → w.run cmd t ≡ w.run cmd s

checked_run_lem :
    (o : Options) (p : Text) (t : Store) (dst : Text) (r : Option (ℤ × Text))
    → ((checked_run o p (command_of o p) t dst r).1 ≡ fault_of o p r)
      × (fault_of o p r ≡ none
          → lookup dst (checked_run o p (command_of o p) t dst r).0 ≡ some (output_of r))
unfolding checked_run
checked_run_lem o p t dst none = (refl, λ e. cc)
checked_run_lem o p t dst (some (code, out)) =
    (ground arith, λ e. ground (arith, lookup-insert dst dst out t, text_eq_refl dst))

module _ (w : World) (o : Options) (s : Store) (writable : (p : Text) → w.writable p ≡ true)
    (blind : IsBlind w s) where
  -- From an index on, the temporary files have the outputs.
  abbrev Ready : ℕ → List Text → Store → Type 0
  Ready i [] t = Unit
  Ready i (p ∷ paths) t =
      (lookup (temp_path w i) t ≡ some (translated w o s p)) × Ready (suc i) paths t

  transform_one_lem :
      (p : Text) (i : ℕ) (t : Store)
      → Agree w s t
      → let x = transform_one w o (o.defines ++ extra_defines o.defines_if p) p (temp_path w i) t in
        (x.1 ≡ fault_of o p (w.run (command_of o p) s))
        × (fault_of o p (w.run (command_of o p) s) ≡ none
            → lookup (temp_path w i) x.0 ≡ some (translated w o s p))
  unfolding transform_one
  transform_one_lem p i t agree =
      let opened = insert (temp_path w i) [] t in
      let seen =
        blind (command_of o p) opened
          (insert-Agree w s t (temp_path w i) [] (temp_path-is_temp w i) agree) in
      rw (transform_one, writable (temp_path w i), seen)
        (checked_run_lem o p opened (temp_path w i) (w.run (command_of o p) s))

  run_all_lem :
      (i : ℕ) (paths : List Text) (t : Store)
      → Agree w s t
      → ((run_all w o i paths t).1 ≡ first_fault w o s paths)
        × (first_fault w o s paths ≡ none → Ready i paths (run_all w o i paths t).0)
  unfolding run_all
  run_all_lem i [] t agree = (refl, λ e. tt)
  run_all_lem i (p ∷ paths) t agree =
      let one = transform_one w o (o.defines ++ extra_defines o.defines_if p) p (temp_path w i) t in
      let here = transform_one_lem p i t agree in
      let after =
        transform_one-Agree w o s t (o.defines ++ extra_defines o.defines_if p) p (temp_path w i)
          (temp_path-is_temp w i) agree in
      let fault = fault_of o p (w.run (command_of o p) s) in
      let rest = run_all_lem (suc i) paths one.0 after in
      then_run_ind
        (λ x.
          (x.1 ≡ or_else fault (first_fault w o s paths))
          × (or_else fault (first_fault w o s paths) ≡ none → Ready i (p ∷ paths) x.0))
        one (λ u. run_all w o (suc i) paths u)
        (λ fine.
          let none_here : fault ≡ none = sym here.0 ∙ fine in
          rw none_here (
            rest.0,
            λ e. (
              run_all-keeps w o i (suc i) paths one.0 (omega arith) ∙ here.1 none_here,
              rest.1 e,
            ),
          ))
        (λ e failed. rw (sym here.0 ∙ failed) (refl, λ f. absurd cc))

  Ready-insert :
      (i : ℕ) (paths : List Text) (p content : Text) (t : Store)
      → is_temp w p ≡ false
      → Ready i paths t
      → Ready i paths (insert p content t)
  Ready-insert i [] p content t out ready = tt
  Ready-insert i (q ∷ paths) p content t out (here, ready) = (
    rw (lookup-insert p (temp_path w i) content t, apart) here,
    Ready-insert (suc i) paths p content t out ready,
  )
    where
      apart : text_eq p (temp_path w i) ≡ false
      apart = ground (
        arith,
        text_eq_iff p (temp_path w i),
        text_eq_iff (temp_path w i) p,
        temp_distinct w (temp_path w i) p (temp_path-is_temp w i) out,
      )

  copy_back_ready :
      (i : ℕ) (p : Text) (t : Store)
      → lookup (temp_path w i) t ≡ some (translated w o s p)
      → copy_back w (temp_path w i) p t ≡ (insert p (translated w o s p) t, none)
  unfolding copy_back
  copy_back_ready i p t ready = rw (copy_back, ready, writable p) refl

  copied : List Text → Store → Text → Option Text
  copied paths t q = if mem_text q paths then some (translated w o s q) else lookup q t

  copied_first :
      (p : Text) (paths : List Text) (t : Store) (q : Text)
      → copied paths (insert p (translated w o s p) t) q ≡ copied (p ∷ paths) t q
  unfolding copied mem_text
  copied_first p paths t q = elim (Bool-cases (text_eq p q)) [
    | inl same ↦
        let equal : p ≡ q = (text_eq_iff p q).0 same in
        rw (lookup-insert p q (translated w o s p) t, same, equal)
          (if_ind (λ x. x ≡ some (translated w o s q)) (mem_text q paths) (λ _. refl) (λ _. refl))
    | inr other ↦ rw (lookup-insert p q (translated w o s p) t, other) refl
  ]

  copy_all_lem :
      (i : ℕ) (paths : List Text) (t : Store)
      → Ready i paths t
      → All (λ p. is_temp w p ≡ false) paths
      → ((copy_all w i paths t).1 ≡ none)
        × ((q : Text) → lookup q (copy_all w i paths t).0 ≡ copied paths t q)
  unfolding copy_all then_run copied mem_text
  copy_all_lem i [] t ready out = (refl, λ q. refl)
  copy_all_lem i (p ∷ paths) t (here, ready) (out, outs) =
      let next = insert p (translated w o s p) t in
      let rest =
        copy_all_lem (suc i) paths next
          (Ready-insert (suc i) paths p (translated w o s p) t out ready) outs in
      rw (copy_all, copy_back_ready i p t here) (rest.0, λ q. rest.1 q ∙ copied_first p paths t q)

  -- With all files writable, a tool that does not look at the temporary directory and no path of the
  -- list in it, the transformation ends with the first trouble that the tool has with the files as
  -- they are at first, and goes through if it has none.
  pub transform-first_fault :
      (paths : List Text)
      → All (λ p. is_temp w p ≡ false) paths
      → (transform w o paths s).1 ≡ first_fault w o s paths
  unfolding transform clean_up
  transform-first_fault paths out =
      let first = run_all w o 0 paths s in
      let ran = run_all_lem 0 paths s (λ q _. refl) in
      then_run_ind (λ x. (clean_up w x).1 ≡ first_fault w o s paths) first
        (λ t. copy_all w 0 paths t)
        (λ fine.
          let good : first_fault w o s paths ≡ none = sym ran.0 ∙ fine in
          (copy_all_lem 0 paths first.0 (ran.1 good) out).0 ∙ sym good)
        (λ e failed. sym failed ∙ ran.0)

  -- If moreover the tool has no trouble with any of the files, then every file of the list holds
  -- afterwards what the tool makes of it among the files as they are at first, whatever the order of
  -- the list, and every other file outside the temporary directory is as it was.
  pub transform-translated :
      (paths : List Text) (q : Text)
      → All (λ p. is_temp w p ≡ false) paths
      → first_fault w o s paths ≡ none
      → is_temp w q ≡ false
      → lookup q (transform w o paths s).0
        ≡ (if mem_text q paths then some (translated w o s q) else lookup q s)
  unfolding transform clean_up copied
  transform-translated paths q out good outside =
      let first = run_all w o 0 paths s in
      let ran = run_all_lem 0 paths s (λ q _. refl) in
      then_run_ind
        (λ x.
          lookup q (clean_up w x).0
          ≡ (if mem_text q paths then some (translated w o s q) else lookup q s))
        first (λ t. copy_all w 0 paths t)
        (λ _.
          lookup-select w q (copy_all w 0 paths first.0).0 outside
          ∙ (copy_all_lem 0 paths first.0 (ran.1 good) out).1 q
          ∙ ap (λ x. if mem_text q paths then some (translated w o s q) else x)
              (sym (run_all-Agree w o s 0 paths s (λ q _. refl) q outside)))
        (λ e failed. let clash : none ≡ some e = sym good ∙ sym ran.0 ∙ failed in absurd cc)
