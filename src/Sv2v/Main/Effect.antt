-- ===== src/Sv2v/Main/Effect.antt =====
-- What a run of the program does to the files, by the way it ends.
use emucpu.Prelude.{
  ◌⊎◌, true, false, if◌then◌else◌, List, [], ◌∷◌, All, none, some, arith, ◌≡◌, ◌≢◌, refl, sym, ap,
  if_ind, ◌∙◌, Option-cases, inl, inr,
}
use emucpu.Prelude.Text.{Text}
use emucpu.Prelude.Dict.{lookup, insert, lookup-insert, mem_text}
use emucpu.Sv2v.Paths.{read_file_list, sv_paths, svh_paths}
use emucpu.Sv2v.Transform.{
  Store, World, Fault, runtime_error, os_error, Outcome, then_run, Options, is_temp, transform,
}
use emucpu.Sv2v.Transform.Files.{Agree}
use emucpu.Sv2v.Transform.Untouched.{then_run_ind, OnlyOsError, transform_failed}
use emucpu.Sv2v.Transform.Outputs.{
  IsBlind, first_fault, translated, transform-first_fault, transform-translated,
}
use emucpu.Sv2v.Main.{
  Args, Exit, returned, uncaught, exit_code, splat, exit_of, options_of, work_on, all_incdirs, main,
}

splat-OnlyOsError : (w : World) (paths : List Text) (t : Store) → OnlyOsError (splat w paths t).1
unfolding splat
splat-OnlyOsError w [] t = tt
splat-OnlyOsError w (p ∷ paths) t =
    let one : Outcome = if w.writable p then (insert p [] t, none) else (t, some (os_error p)) in
    then_run_ind (λ x. OnlyOsError x.1) one (λ u. splat w paths u)
      (λ _. splat-OnlyOsError w paths one.0)
      (λ e failed. rw failed at (
        if_ind {A = Outcome} (λ x. OnlyOsError x.1) (w.writable p) {x = (insert p [] t, none)}
          {y = (t, some (os_error p))} (λ _. tt) (λ _. tt)))

not_1 : (x : Outcome) → OnlyOsError x.1 → (exit_of x).1 ≢ returned 1
unfolding exit_of
not_1 (s, none) h = λ e. cc
not_1 (s, some (os_error p)) h = λ e. cc
not_1 (s, some (runtime_error p code cmd)) h = absurd h

transform_exit_1 :
    (w : World) (o : Options) (paths : List Text) (s : Store) (e : Fault)
    → (transform w o paths s).1 ≡ some e
    → (exit_of ((transform w o paths s).0, some e)).1 ≡ returned 1
    → Agree w s (exit_of ((transform w o paths s).0, some e)).0
unfolding exit_of
transform_exit_1 w o paths s (runtime_error p code cmd) failed one =
    transform_failed w o paths s p code cmd failed
transform_exit_1 w o paths s (os_error p) failed one = absurd cc

main-returned_1 :
    (w : World) (args : Args) (s : Store)
    → (main w args s).1 ≡ returned 1
    → Agree w s (main w args s).0
unfolding main work_on
main-returned_1 w args s = elim (Option-cases (lookup args.file_list s)) [
  | inl e ↦ rw (main, e) (λ _ q _. refl)
  | inr (content, e) ↦ elim (Option-cases (all_incdirs args s)) [
    | inl f ↦ rw (main, e, f) (λ _ q _. refl)
    | inr (incdirs, f) ↦
        let paths = read_file_list content in
        let o = options_of args paths incdirs in
        rw (main, e, f)
          (then_run_ind (λ x. (exit_of x).1 ≡ returned 1 → Agree w s (exit_of x).0)
            (transform w o (sv_paths paths) s) (λ t. splat w (svh_paths paths) t)
            (λ _ one. absurd (
              not_1 _ (splat-OnlyOsError w (svh_paths paths) (transform w o (sv_paths paths) s).0)
                one))
            (λ e failed. transform_exit_1 w o (sv_paths paths) s e failed))
  ]
]

returned_or_uncaught :
    (e : Exit) → exit_code e ≡ 1 → ((path : Text) × (e ≡ uncaught path)) ⊎ (e ≡ returned 1)
returned_or_uncaught (returned n) h = inr (ap returned h)
returned_or_uncaught (uncaught path) h = inl (path, refl)

-- When the program exits with code 1, it has come to an OSError that it does not catch, or no file
-- outside the temporary directory has changed.
pub main-exit_1 :
    (w : World) (args : Args) (s : Store)
    → exit_code (main w args s).1 ≡ 1
    → ((path : Text) × ((main w args s).1 ≡ uncaught path)) ⊎ Agree w s (main w args s).0
main-exit_1 w args s one = elim (returned_or_uncaught (main w args s).1 one) [
  | inl raised ↦ inl raised
  | inr e ↦ inr (main-returned_1 w args s e)
]

exit_of_fine : (x : Outcome) → x.1 ≡ none → exit_of x ≡ (x.0, returned 0)
unfolding exit_of
exit_of_fine (s, none) fine = refl
exit_of_fine (s, some e) fine = absurd cc

splat_lem :
    (w : World) (paths : List Text) (t : Store)
    → ((p : Text) → w.writable p ≡ true)
    → ((splat w paths t).1 ≡ none)
      × ((q : Text)
          → lookup q (splat w paths t).0 ≡ (if mem_text q paths then some [] else lookup q t))
unfolding splat then_run mem_text
splat_lem w [] t writable = (refl, λ q. refl)
splat_lem w (p ∷ paths) t writable =
    let rest = splat_lem w paths (insert p [] t) writable in
    rw (splat, writable p) (rest.0, λ q. ground (arith, rest.1 q, lookup-insert p q [] t))

-- Say that all files may be written, the tool does not look at the temporary directory, no path on
-- the list lies there, and the two lists can be read. If the tool has no trouble with any of the
-- `.sv` files as they are at first, the program exits with code 0; each of these files then holds
-- its translation, each `.svh` file on the list is empty, and every other file outside the
-- temporary directory is as it was.
pub main-exit_0 :
    (w : World) (args : Args) (s : Store) (content : Text) (incdirs : List Text) (q : Text)
    → ((p : Text) → w.writable p ≡ true)
    → IsBlind w s
    → lookup args.file_list s ≡ some content
    → all_incdirs args s ≡ some incdirs
    → All (λ p. is_temp w p ≡ false) (sv_paths (read_file_list content))
    → first_fault w
        (options_of args (read_file_list content) incdirs)
        s
        (sv_paths (read_file_list content))
      ≡ none
    → is_temp w q ≡ false
    → ((main w args s).1 ≡ returned 0)
      × (lookup q (main w args s).0 ≡ (
          if mem_text q (svh_paths (read_file_list content))
          then some []
          else if mem_text q (sv_paths (read_file_list content))
          then some (translated w (options_of args (read_file_list content) incdirs) s q)
          else lookup q s))
unfolding main work_on exit_of
main-exit_0 w args s content incdirs q writable blind read read_incdirs out good outside =
    let paths = read_file_list content in
    let o = options_of args paths incdirs in
    let work = transform w o (sv_paths paths) s in
    let went = transform-first_fault w o s writable blind (sv_paths paths) out ∙ good in
    let emptied = splat_lem w (svh_paths paths) work.0 writable in
    let after = transform-translated w o s writable blind (sv_paths paths) q out good outside in
    rw (main, read, read_incdirs)
      (then_run_ind
        (λ x.
          ((exit_of x).1 ≡ returned 0)
          × (lookup q (exit_of x).0 ≡ (
              if mem_text q (svh_paths paths)
              then some []
              else if mem_text q (sv_paths paths)
              then some (translated w o s q)
              else lookup q s)))
        work (λ t. splat w (svh_paths paths) t)
        (λ _.
          rw (exit_of_fine (splat w (svh_paths paths) work.0) emptied.0) (
            refl,
            emptied.1 q ∙ ap (λ x. if mem_text q (svh_paths paths) then some [] else x) after,
          ))
        (λ e failed. let clash : none ≡ some e = sym went ∙ failed in absurd cc))
