-- ===== src/RunInstrGen/Copies/Effect.antt =====
-- What the copies leave in the files.
use emucpu.Prelude.{
  Bool, true, false, if◌then◌else◌, List, [], ◌∷◌, none, some, All, arith, ◌≡◌, refl, sym, ◌∙◌,
  Option-cases, inl, inr,
}
use mathlib.Core.Option.{or_else}
use emucpu.Prelude.Text.{Text, text_eq, text_eq_iff, text_eq_refl}
use emucpu.Prelude.Dict.{Dict, lookup, lookup-insert}
use emucpu.Stdlib.OsPath.{join_path}
use emucpu.RunInstrGen.Reloc.{GenError}
use emucpu.RunInstrGen.Copies.{Copying, CopyRule, and_then, copy_one, do_file_copies}

text_eq_sym : (a b : Text) → text_eq b a ≡ text_eq a b
unfolding text_eq
text_eq_sym a b = ground (arith, text_eq_iff a b, text_eq_iff b a)

pub and_then_ind {ℓ} :
    (P : Copying → Type ℓ) (x : Copying) (next : Dict Text → Copying)
    → (x.1 ≡ none → P (next x.0))
    → ((e : GenError) → x.1 ≡ some e → P (x.0, some e))
    → P (and_then x next)
unfolding and_then
and_then_ind P (s, none) next f g = f refl
and_then_ind P (s, some e) next f g = g e refl

module _ (src_dir dst_dir : Text) where
  abbrev pub src_path : CopyRule → Text
  src_path r = join_path src_dir r.src_name

  abbrev pub dst_path : CopyRule → Text
  dst_path r = join_path dst_dir r.dst_name

  -- No rule writes what a later one reads or writes.
  abbrev pub Clear : List CopyRule → Type 0
  Clear [] = Unit {0}
  Clear (r ∷ rules) =
      All
        (λ q.
          (text_eq (dst_path r) (dst_path q) ≡ false) × (text_eq (dst_path r) (src_path q) ≡ false))
        rules
      × Clear rules

  -- After a run that succeeded, the rule's file was there and has been copied. After one that failed,
  -- it has been copied if the rule says so and it was there.
  abbrev pub IsDone : Bool → Dict Text → Dict Text → CopyRule → Type 0
  IsDone false s t r =
      (content : Text) × (lookup (src_path r) s ≡ some content)
      × (lookup (dst_path r) t ≡ some content)
  IsDone true s t r = lookup (dst_path r) t ≡ (
      if r.copy_on_fail
      then or_else (lookup (src_path r) s) (lookup (dst_path r) s)
      else lookup (dst_path r) s)

  IsDone-from :
      (failed : Bool) (s u t : Dict Text) (r : CopyRule)
      → lookup (src_path r) u ≡ lookup (src_path r) s
      → lookup (dst_path r) u ≡ lookup (dst_path r) s
      → IsDone failed u t r
      → IsDone failed s t r
  IsDone-from false s u t r e f (content, was, got) = (content, sym e ∙ was, got)
  IsDone-from true s u t r e f got = rw (← e, ← f) got

  IsDone-to :
      (failed : Bool) (s u t : Dict Text) (r : CopyRule)
      → lookup (dst_path r) t ≡ lookup (dst_path r) u
      → IsDone failed s u r
      → IsDone failed s t r
  IsDone-to false s u t r e (content, was, got) = (content, was, e ∙ got)
  IsDone-to true s u t r e got = e ∙ got

  module _ (writable : Text → Bool) where
    -- Only the rule's file is written.
    copy_one-keeps :
        (failed : Bool) (r : CopyRule) (s : Dict Text) (p : Text)
        → text_eq (dst_path r) p ≡ false
        → lookup p (copy_one writable src_dir dst_dir failed r s).0 ≡ lookup p s
    unfolding copy_one
    copy_one-keeps failed r s p apart = elim (Option-cases (lookup (src_path r) s)) [
      | inl e ↦ rw (copy_one, e) (ground arith)
      | inr (content, e) ↦ rw (copy_one, e) (ground (arith, lookup-insert (dst_path r) p content s))
    ]

    copy_one-IsDone :
        (failed : Bool) (r : CopyRule) (s : Dict Text)
        → (copy_one writable src_dir dst_dir failed r s).1 ≡ none
        → IsDone failed s (copy_one writable src_dir dst_dir failed r s).0 r
    unfolding copy_one or_else
    copy_one-IsDone false r s went = elim (Option-cases (lookup (src_path r) s)) [
      | inl e ↦ absurd (ground arith)
      | inr (content, e) ↦
          let written = lookup-insert (dst_path r) (dst_path r) content s in
          (content, e, ground (arith, written, text_eq_refl (dst_path r)))
    ]
    copy_one-IsDone true r s went = elim (Option-cases (lookup (src_path r) s)) [
      | inl e ↦ ground arith
      | inr (content, e) ↦
          let written = lookup-insert (dst_path r) (dst_path r) content s in
          ground (arith, written, text_eq_refl (dst_path r))
    ]

    pub do_file_copies-keeps :
        (failed : Bool) (rules : List CopyRule) (s : Dict Text) (p : Text)
        → All (λ r. text_eq (dst_path r) p ≡ false) rules
        → lookup p (do_file_copies writable src_dir dst_dir rules failed s).0 ≡ lookup p s
    unfolding do_file_copies and_then
    do_file_copies-keeps failed [] s p h = refl
    do_file_copies-keeps failed (r ∷ rules) s p (here, h) =
        let one = copy_one writable src_dir dst_dir failed r s in
        and_then_ind (λ x. lookup p x.0 ≡ lookup p s) one
          (λ t. do_file_copies writable src_dir dst_dir rules failed t)
          (λ _. do_file_copies-keeps failed rules one.0 p h ∙ copy_one-keeps failed r s p here)
          (λ e _. copy_one-keeps failed r s p here)

    rest_IsDone :
        (failed : Bool) (r : CopyRule) (rules : List CopyRule) (s t : Dict Text)
        → All
            (λ q.
              (text_eq (dst_path r) (dst_path q) ≡ false)
              × (text_eq (dst_path r) (src_path q) ≡ false))
            rules
        → let u = (copy_one writable src_dir dst_dir failed r s).0 in
          All (IsDone failed u t) rules → All (IsDone failed s t) rules
    rest_IsDone failed r [] s t apart done = tt
    rest_IsDone failed r (q ∷ rules) s t ((dst_apart, src_apart), apart) (d, done) = (
      IsDone-from failed s (copy_one writable src_dir dst_dir failed r s).0 t q
          (copy_one-keeps failed r s (src_path q) src_apart)
          (copy_one-keeps failed r s (dst_path q) dst_apart) d,
      rest_IsDone failed r rules s t apart done,
    )

    apart_of :
        (r : CopyRule) (rules : List CopyRule)
        → All
            (λ q.
              (text_eq (dst_path r) (dst_path q) ≡ false)
              × (text_eq (dst_path r) (src_path q) ≡ false))
            rules
        → All (λ q. text_eq (dst_path q) (dst_path r) ≡ false) rules
    apart_of r [] h = tt
    apart_of r (q ∷ rules) ((e, _), h) =
        (text_eq_sym (dst_path r) (dst_path q) ∙ e, apart_of r rules h)

    -- If no rule writes what a later one reads or writes, and nothing is raised, then after a run
    -- that succeeded the file of each rule was there and its copy is in place; after a run that
    -- failed this holds of the rules for that case whose file was there, and the targets of the
    -- other rules are as they were.
    pub do_file_copies-IsDone :
        (rules : List CopyRule) (failed : Bool) (s : Dict Text)
        → Clear rules
        → (do_file_copies writable src_dir dst_dir rules failed s).1 ≡ none
        → All (IsDone failed s (do_file_copies writable src_dir dst_dir rules failed s).0) rules
    unfolding do_file_copies
    do_file_copies-IsDone [] failed s clear = λ _. tt
    do_file_copies-IsDone (r ∷ rules) failed s (apart, clear) =
        let one = copy_one writable src_dir dst_dir failed r s in
        let next : Dict Text → Copying =
          λ t. do_file_copies writable src_dir dst_dir rules failed t in
        and_then_ind (λ x. x.1 ≡ none → All (IsDone failed s x.0) (r ∷ rules)) one next
          (λ here went. (
            IsDone-to failed s one.0 (next one.0).0 r
                (do_file_copies-keeps failed rules one.0 (dst_path r) (apart_of r rules apart))
                (copy_one-IsDone failed r s here),
            rest_IsDone failed r rules s (next one.0).0 apart
                (do_file_copies-IsDone rules failed one.0 clear went),
          ))
          (λ e _ went. absurd cc)
