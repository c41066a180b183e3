-- ===== src/RunInstrGen/Main/Copied.antt =====
-- The assembly file that a run leaves.
use emucpu.Prelude.{
  ℕ, Bool, true, false, not, ◌==◌, ap, if◌then◌else◌, List, [], ◌∷◌, ◌++◌, select, none, some, ok,
  arith, ◌≡◌, refl, sym, ◌∙◌, Bool-cases, inl, inr,
}
use mathlib.Core.List.{append_assoc}
use emucpu.Sv2v.Transform.Files.{append_cancel}
use emucpu.Prelude.Int.{ℤ, pos}
use emucpu.Prelude.Text.{Text, codes, text_eq, text_eq_iff, starts_with, starts_with-append}
use emucpu.Prelude.Dict.{Dict, lookup}
use emucpu.Stdlib.OsPath.{join_path}
use emucpu.RunInstrGen.Copies.{CopyRule, Copying, do_file_copies}
use emucpu.RunInstrGen.Copies.Effect.{do_file_copies-IsDone}
use emucpu.RunInstrGen.Main.{
  Job, Setting, Run, returns_0, ◌then_do◌, generate, commands, run_logged, file_copies,
  csr_file_copies, default_file_copies, copy_results, after_generation, is_scratch, leave_scratch,
  main,
}

join_path-relative :
    (a b : Text) (c : ℕ) → (c == b'/') ≡ false → join_path a (c ∷ b) ≡ join_path a [] ++ c ∷ b
unfolding join_path
join_path-relative a b c h = ground (arith, append_assoc a (codes "/") (c ∷ b))

-- A file of the temporary directory is none that lies outside.
scratch_apart :
    (w : Setting) (p b : Text) (c : ℕ)
    → (c == b'/') ≡ false
    → is_scratch w p ≡ false
    → text_eq p (join_path w.td (c ∷ b)) ≡ false
unfolding is_scratch
scratch_apart w p b c h out = elim (Bool-cases (text_eq p (join_path w.td (c ∷ b)))) [
  | inr other ↦ other
  | inl same ↦
      let equal : p ≡ join_path w.td [] ++ c ∷ b =
        (text_eq_iff p (join_path w.td (c ∷ b))).0 same ∙ join_path-relative w.td b c h in
      let inside = starts_with-append (join_path w.td []) (c ∷ b) in
      absurd (ground (arith, ap (λ q. starts_with q (join_path w.td [])) equal, inside))
]

names_apart :
    (a b c : Text) (x y : ℕ)
    → (x == b'/') ≡ false
    → (y == b'/') ≡ false
    → text_eq (x ∷ b) (y ∷ c) ≡ false
    → text_eq (join_path a (x ∷ b)) (join_path a (y ∷ c)) ≡ false
names_apart a b c x y h k apart =
    elim (Bool-cases (text_eq (join_path a (x ∷ b)) (join_path a (y ∷ c)))) [
      | inr other ↦ other
      | inl same ↦
          let equal = (text_eq_iff (join_path a (x ∷ b)) (join_path a (y ∷ c))).0 same in
          let cancelled : x ∷ b ≡ y ∷ c =
            append_cancel (join_path a []) (x ∷ b) (y ∷ c)
              (sym (join_path-relative a b x h) ∙ equal ∙ join_path-relative a c y k) in
          absurd (ground (arith, (text_eq_iff (x ∷ b) (y ∷ c)).1 cancelled))
    ]

select-lookup :
    (w : Setting) (p : Text) (s : Dict Text)
    → is_scratch w p ≡ false
    → lookup p (select (λ file. not (is_scratch w file.0)) s) ≡ lookup p s
unfolding lookup
select-lookup w p [] out = refl
select-lookup w p ((k, v) ∷ s) out = elim (Bool-cases (is_scratch w k)) [
  | inl inside ↦ ground (arith, select-lookup w p s out, text_eq_iff k p)
  | inr outside ↦ ground (arith, select-lookup w p s out)
]

g_apart : text_eq (codes "gen.log") (codes "test.S") ≡ false
unfolding text_eq
g_apart = refl

if_ind₂ {ℓ κ μ} :
    {A : Type ℓ} {B : Type κ} (P : A → B → Type μ) (b : Bool) {x y : A} {z w : B}
    → P x z
    → P y w
    → P (if b then x else y) (if b then z else w)
if_ind₂ P true p q = p
if_ind₂ P false p q = q

-- The name under which the commands leave the test.
unfoldable pub assembly_name : Text → Text
unfolding text_eq
assembly_name testname =
    if text_eq testname (codes "riscv_csr_test")
    then codes "riscv_csr_test_0.S"
    else codes "test_0.S"

abbrev pub assembly : Job → Text
assembly r = join_path r.dir_test (codes "test.S")

returns_0-eq-ok :
    (x : Copying) {s : Dict Text} {c : ℤ}
    → returns_0 x ≡ (s, ok c)
    → (x.1 ≡ none) × (x.0 ≡ s) × (c ≡ pos 0)
returns_0-eq-ok (s, none) e = (refl, cc, cc)
returns_0-eq-ok (s, some f) e = absurd cc

leave_scratch-eq-ok :
    (w : Setting) (x : Run ℤ) {t : Dict Text} {c : ℤ}
    → leave_scratch w x ≡ (t, ok c)
    → (x.1 ≡ ok c) × ((p : Text) → is_scratch w p ≡ false → lookup p t ≡ lookup p x.0)
unfolding leave_scratch
leave_scratch-eq-ok w (s, result) {t} e =
    let files : select (λ file. not (is_scratch w file.0)) s ≡ t = cc in
    (cc, λ p out. rw (← files) (select-lookup w p s out))

module _ (w : Setting) (r : Job) where
  -- What the rules have done for the test, if they went through.
  abbrev IsCopied : Dict Text → List CopyRule → Text → Type 0
  IsCopied u rules name =
      (do_file_copies w.machine.writable w.td r.dir_test rules false u).1 ≡ none
      → (content : Text) × (lookup (join_path w.td name) u ≡ some content)
        × (lookup (assembly r) (do_file_copies w.machine.writable w.td r.dir_test rules false u).0
            ≡ some content)

  csr_file_copies-IsCopied :
      (u : Dict Text) → IsCopied u csr_file_copies (codes "riscv_csr_test_0.S")
  csr_file_copies-IsCopied u went =
      (do_file_copies-IsDone w.td r.dir_test w.machine.writable csr_file_copies false u (tt, tt)
        went).0

  default_file_copies-IsCopied :
      (u : Dict Text)
      → is_scratch w (join_path r.dir_test (codes "gen.log")) ≡ false
      → IsCopied u default_file_copies (codes "test_0.S")
  default_file_copies-IsCopied u out went =
      let apart =
        names_apart r.dir_test (codes "en.log") (codes "est.S") b'g' b't' refl refl g_apart in
      let from =
        scratch_apart w (join_path r.dir_test (codes "gen.log")) (codes "est_0.S") b't' refl out in
      let done =
        do_file_copies-IsDone w.td r.dir_test w.machine.writable default_file_copies false u
          (((apart, from), tt), (tt, tt)) went in
      done.1.0

  file_copies-IsCopied :
      (u : Dict Text)
      → is_scratch w (join_path r.dir_test (codes "gen.log")) ≡ false
      → IsCopied u (file_copies r.testname) (assembly_name r.testname)
  unfolding file_copies assembly_name
  file_copies-IsCopied u out =
      if_ind₂ (λ rules name. IsCopied u rules name) (text_eq r.testname (codes "riscv_csr_test"))
        (csr_file_copies-IsCopied u) (default_file_copies-IsCopied u out)

  copy_results-assembly :
      (u s : Dict Text) {c : ℤ}
      → is_scratch w (join_path r.dir_test (codes "gen.log")) ≡ false
      → copy_results w r (pos 0) u ≡ (s, ok c)
      → (c ≡ pos 0)
        × (content : Text) × (lookup (join_path w.td (assembly_name r.testname)) u ≡ some content)
        × (lookup (assembly r) s ≡ some content)
  unfolding copy_results
  copy_results-assembly u s out e =
      let x = do_file_copies w.machine.writable w.td r.dir_test (file_copies r.testname) false u in
      let (went, same, is_0) = returns_0-eq-ok x e in
      let (content, was, got) = file_copies-IsCopied u out went in
      (is_0, content, was, rw (← same) got)

-- If the generator succeeded, and so did all the commands that were moved from its list, and the run
-- returns, then it returns 0, the commands have left the test in the temporary directory, and
-- `test.S` in the test's directory is that text: under the name that riscv_csr_test has for it, or
-- under the usual one. The directory of the test lies outside the temporary one.
pub main-assembly :
    (w : Setting) (r : Job) (s g u t : Dict Text) (cmds : List (List Text)) {c : ℤ}
    → is_scratch w (join_path r.dir_test (codes "gen.log")) ≡ false
    → is_scratch w (assembly r) ≡ false
    → generate w r s ≡ (g, ok (pos 0))
    → commands w r g ≡ (g, ok cmds)
    → run_logged w r cmds g ≡ (u, ok (pos 0))
    → main w r s ≡ (t, ok c)
    → (c ≡ pos 0)
      × (content : Text) × (lookup (join_path w.td (assembly_name r.testname)) u ≡ some content)
      × (lookup (assembly r) t ≡ some content)
unfolding main after_generation ◌then_do◌
main-assembly w r s g u t cmds log_out test_out generated listed ran e =
    let last : leave_scratch w (copy_results w r (pos 0) u) ≡ (t, ok _) =
      rw (main, generated, listed, ran) at e in
    let (done, agree) = leave_scratch-eq-ok w (copy_results w r (pos 0) u) last in
    let v = (copy_results w r (pos 0) u).0 in
    let (is_0, content, was, got) = copy_results-assembly w r u v log_out cc in
    (is_0, content, was, agree (assembly r) test_out ∙ got)
