-- ===== src/Smt2Manip/Passes.antt =====
-- One pass over a file does what two would: judge the assertions, then rewrite the functions.
use emucpu.Prelude.{
  ℕ, Bool, true, false, if◌then◌else◌, List, [], ◌∷◌, ◌++◌, map, flatten, Result, ok, raise, is_ok,
  ◌>>=◌, bind-eq-ok, All, ◌≡◌, refl, sym, ◌∙◌, Result-cases, inl, inr,
}
use mathlib.Core.List.{append_assoc, append-nil}
use emucpu.Prelude.Text.{Text}
use emucpu.Conductor.Select.{SelectError}
use emucpu.Smt2Manip.{
  Asked, match_assert, step_and_name, Verdict, delete, assert_to_assume, keep, verdict, Lists, note,
  rewritten, on_line, on_lines, no_lists,
}

-- An assertion of the file: its number, its step and its name.
abbrev pub Assertion : Type 0
Assertion = Text × (ℕ × Text)

-- The assertions of the lines.
unfoldable pub assertions : List Text → Result SelectError (List Assertion)
unfolding match_assert step_and_name
assertions [] = ok []
assertions (line ∷ lines) = elim (match_assert line) [
  | raise e ↦ assertions lines
  | ok m ↦ step_and_name m.1 >>= λ s. assertions lines >>= λ more. ok ((m.0, s) ∷ more)
]

abbrev is_assumed : Verdict → Bool
is_assumed assert_to_assume = true
is_assumed _ = false

abbrev is_deleted : Verdict → Bool
is_deleted delete = true
is_deleted _ = false

-- The numbers of those with a verdict.
abbrev pub judged : (Verdict → Bool) → Asked → List Assertion → List Text
judged p args [] = []
judged p args ((id, (step, name)) ∷ l) =
    if p (verdict args step name) then id ∷ judged p args l else judged p args l

on_lines-append :
    (args : Asked) (a b : List Text) (l : Lists)
    → on_lines args (a ++ b) l ≡ on_lines args a l >>= λ m. on_lines args b m
unfolding on_lines
on_lines-append args [] b l = refl
on_lines-append args (line ∷ a) b l = elim (Result-cases (on_line args line l)) [
  | inl (m, e) ↦ rw e (on_lines-append args a b m)
  | inr (f, e) ↦ rw e refl
]

-- The lists after an assertion.
note-judged :
    (args : Asked) (id line : Text) (s : ℕ × Text) (found : List Assertion) (l : Lists)
    → let m = note (verdict args s.0 s.1) id line l in
      (m.to_assume ++ judged is_assumed args found
        ≡ l.to_assume ++ judged is_assumed args ((id, s) ∷ found))
      × (m.deleted ++ judged is_deleted args found
          ≡ l.deleted ++ judged is_deleted args ((id, s) ∷ found))
unfolding note
note-judged args id line s found l =
    elim (verdict args s.0 s.1)
      as (λ v.
        let m = note v id line l in
        (m.to_assume ++ judged is_assumed args found
          ≡ l.to_assume
            ++ (if is_assumed v
                then id ∷ judged is_assumed args found
                else judged is_assumed args found))
        × (m.deleted ++ judged is_deleted args found
            ≡ l.deleted
              ++ (if is_deleted v
                  then id ∷ judged is_deleted args found
                  else judged is_deleted args found))) [
                    | delete ↦
                        (refl, append_assoc l.deleted (id ∷ []) (judged is_deleted args found))
                    | assert_to_assume ↦
                        (append_assoc l.to_assume (id ∷ []) (judged is_assumed args found), refl)
                    | keep ↦ (refl, refl)
                  ]

assertions-cons :
    (line : Text) (lines : List Text) {m : Text × Text} {found : List Assertion}
    → match_assert line ≡ ok m
    → assertions (line ∷ lines) ≡ ok found
    → (s : ℕ × Text) × (more : List Assertion) × (step_and_name m.1 ≡ ok s)
      × (assertions lines ≡ ok more)
      × (found ≡ (m.0, s) ∷ more)
unfolding assertions
assertions-cons line lines {m} matched e =
    let next : ℕ × Text → Result SelectError (List Assertion) =
      λ s. assertions lines >>= λ more. ok ((m.0, s) ∷ more) in
    let went : step_and_name m.1 >>= next ≡ ok _ = rw (assertions, matched) at e in
    let (s, here, went') = bind-eq-ok (step_and_name m.1) next went in
    let last : List Assertion → Result SelectError (List Assertion) =
      λ more. ok ((m.0, s) ∷ more) in
    let (more, there, joined) = bind-eq-ok (assertions lines) last went' in
    (s, more, here, there, cc)

-- The first pass.
on_lines-judged :
    (args : Asked) (lines : List Text) (l : Lists) {found : List Assertion}
    → assertions lines ≡ ok found
    → (m : Lists) × (on_lines args lines l ≡ ok m)
      × (m.to_assume ≡ l.to_assume ++ judged is_assumed args found)
      × (m.deleted ≡ l.deleted ++ judged is_deleted args found)
unfolding on_lines assertions
on_lines-judged args [] l {found} e =
    let none : [] ≡ found = cc in
    (l, refl, rw (← none) (sym (append-nil l.to_assume)), rw (← none) (sym (append-nil l.deleted)))
on_lines-judged args (line ∷ lines) l {found} e = elim (Result-cases (match_assert line)) [
  | inl (m, matched) ↦
      let (s, more, here, there, joined) = assertions-cons line lines matched e in
      let l' = note (verdict args s.0 s.1) m.0 line l in
      let (out, went, assumed, deleted) = on_lines-judged args lines l' there in
      let (a, d) = note-judged args m.0 line s more l in
      (out, rw (on_line, matched, here) went, rw joined (assumed ∙ a), rw joined (deleted ∙ d))
  | inr (f, other) ↦
      let l' = record l { mapped = l.mapped ++ rewritten l.to_assume l.deleted line } in
      let rest : assertions lines ≡ ok found = rw (assertions, other) at e in
      let (out, went, assumed, deleted) = on_lines-judged args lines l' rest in
      (out, rw (on_line, other) went, assumed, deleted)
]

-- The second.
on_lines-rewritten :
    (args : Asked) (lines : List Text) (l : Lists)
    → All (λ line. is_ok (match_assert line) ≡ false) lines
    → on_lines args lines l
      ≡ ok (record l { mapped = l.mapped ++ flatten (map (rewritten l.to_assume l.deleted) lines) })
unfolding on_lines
on_lines-rewritten args [] l h = rw append-nil refl
on_lines-rewritten args (line ∷ lines) l (p, h) = elim (Result-cases (match_assert line)) [
  | inl (m, matched) ↦ let no_match = rw matched at p in absurd cc
  | inr (f, other) ↦
      let here = rewritten l.to_assume l.deleted line in
      let l' = record l { mapped = l.mapped ++ here } in
      rw (on_line, other)
        (on_lines-rewritten args lines l' h
          ∙ rw (append_assoc l.mapped here (flatten (map (rewritten l.to_assume l.deleted) lines)))
              refl)
]

-- If the assertions among the first lines of a file can be read, and no assertion follows them, then
-- the first lines come out as they do without the others, and the others come out as a second pass
-- rewrites them that is told which of all the assertions are assumed and which deleted.
pub on_lines-two_passes :
    (args : Asked) (lines rest : List Text) {found : List Assertion}
    → assertions lines ≡ ok found
    → All (λ line. is_ok (match_assert line) ≡ false) rest
    → (first : Lists) × (on_lines args lines no_lists ≡ ok first)
      × (on_lines args (lines ++ rest) no_lists
          ≡ ok (record first {
            mapped =
                first.mapped
                ++ flatten (
                    map
                      (rewritten (judged is_assumed args found) (judged is_deleted args found))
                      rest);
          }))
on_lines-two_passes args lines rest e h =
    let (first, went, assumed, deleted) = on_lines-judged args lines no_lists e in
    (
      first,
      went,
      on_lines-append args lines rest no_lists
          ∙ rw (went, on_lines-rewritten args rest first h, assumed, deleted) refl,
    )
