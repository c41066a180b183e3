-- ===== src/RunInstrGen/Reloc/Plusarg.antt =====
-- The path in a plusarg is relocated like one that stands alone.
use emucpu.Prelude.{
  ℕ, true, false, ◌==◌, all, any, List, ◌∙◌, [], ◌∷◌, ◌++◌, none, some, ok, arith, ◌≡◌, refl, sym,
  Option-cases, inl, inr,
}
use mathlib.Core.List.{append_assoc}
use emucpu.Prelude.Text.{Text, codes, contains}
use emucpu.Prelude.Dict.{lookup}
use emucpu.ToolCmds.{is_word}
use emucpu.RunInstrGen.Reloc.{
  Places, sim_relocs, always_relocs, line_of, name_and_value, match_plusarg, pre_and_post, relocate,
  without_placeholder, reloc_word,
}

line_of-whole : (s : Text) → any (λ c. c == 10) s ≡ false → line_of s ≡ s
unfolding line_of
line_of-whole [] h = refl
line_of-whole (c ∷ s) h = ground (arith, line_of-whole s)

name_and_value-end :
    (post : Text)
    → any (λ c. c == 10) post ≡ false
    → name_and_value true (b'=' ∷ post) ≡ some (codes "=", post)
unfolding name_and_value is_word
name_and_value-end post one_line = rw (line_of-whole post one_line) refl

name_and_value-seen :
    (name post : Text)
    → all is_word name ≡ true
    → any (λ c. c == 10) post ≡ false
    → name_and_value true (name ++ b'=' ∷ post) ≡ some (name ++ codes "=", post)
unfolding name_and_value
name_and_value-seen [] post h one_line = name_and_value-end post one_line
name_and_value-seen (c ∷ name) post h one_line = ground (arith, name_and_value-seen name post)

abbrev pub plusarg : ℕ → Text → Text
plusarg c name = b'+' ∷ c ∷ (name ++ codes "=")

match_plusarg-plusarg :
    (c : ℕ) (name post : Text)
    → all is_word (c ∷ name) ≡ true
    → any (λ d. d == 10) post ≡ false
    → pre_and_post (plusarg c name ++ post) ≡ (plusarg c name, post)
unfolding match_plusarg name_and_value pre_and_post
match_plusarg-plusarg c name post h one_line =
    ground (arith, append_assoc name (codes "=") post, name_and_value-seen name post)

reloc_word-parts :
    (a : Places) (word pre post : Text) {relocs : List (Text × Text)}
    → lookup a.simulator (sim_relocs a) ≡ some relocs
    → pre_and_post word ≡ (pre, post)
    → reloc_word a word
      ≡ without_placeholder a word (pre ++ relocate a.cwd post (relocs ++ always_relocs a))
unfolding reloc_word
reloc_word-parts a word pre post found parts = rw (reloc_word, found, parts) refl

without_placeholder-eq-ok :
    (a : Places) (word s : Text) {reloc : Text}
    → without_placeholder a word s ≡ ok reloc
    → s ≡ reloc
unfolding without_placeholder
without_placeholder-eq-ok a word s e = ground arith

-- A plusarg with a name of word characters, whose value is one line, no plusarg itself, and relocated
-- if it stands alone, is relocated to the same name with the value's relocation, unless that spells
-- the placeholder together with the name.
pub reloc_word-plusarg :
    (a : Places) (c : ℕ) (name post reloc : Text)
    → all is_word (c ∷ name) ≡ true
    → any (λ d. d == 10) post ≡ false
    → match_plusarg post ≡ none
    → reloc_word a post ≡ ok reloc
    → contains a.placeholder_dir (plusarg c name ++ reloc) ≡ false
    → reloc_word a (plusarg c name ++ post) ≡ ok (plusarg c name ++ reloc)
unfolding reloc_word pre_and_post without_placeholder
reloc_word-plusarg a c name post reloc h one_line alone e clear =
    elim (Option-cases (lookup a.simulator (sim_relocs a))) [
      | inl missing ↦ let failed = rw (reloc_word, missing) at e in absurd cc
      | inr (relocs, found) ↦
          let moved = relocate a.cwd post (relocs ++ always_relocs a) in
          let whole : pre_and_post post ≡ ([], post) = rw (pre_and_post, alone) refl in
          let same : moved ≡ reloc =
            without_placeholder-eq-ok a post moved
              (sym (reloc_word-parts a post [] post found whole) ∙ e) in
          let parts = match_plusarg-plusarg c name post h one_line in
          reloc_word-parts a (plusarg c name ++ post) (plusarg c name) post found parts
          ∙ rw (same, without_placeholder, clear) refl
    ]
