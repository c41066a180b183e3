-- ===== src/Conductor/NameTree/Chunks.antt =====
-- The chunks of a name hold all of it but the underscores.
use emucpu.Prelude.{
  ℕ, Bool, true, not, ◌==◌, List, [], ◌∷◌, ◌++◌, select, flatten, arith, ◌≡◌, ◌≢◌, refl, ◌∙◌,
}
use emucpu.Prelude.Text.{Text}
use emucpu.Conductor.NameTree.{is_upper, starts_upper, pieces, chunks_of, chunk_name}

abbrev pub no_underscore : ℕ → Bool
no_underscore c = not (c == b'_')

-- Before an upper-case letter there is no text.
pieces-starts_upper : (s : Text) → starts_upper s ≡ true → (pieces s).0 ≡ []
unfolding pieces starts_upper is_upper
pieces-starts_upper [] h = refl
pieces-starts_upper (c ∷ s) h = ground arith

flatten-pieces : (s : Text) → (pieces s).0 ++ flatten (pieces s).1 ≡ select no_underscore s
unfolding pieces is_upper
flatten-pieces [] = refl
flatten-pieces (c ∷ s) = ground (arith, flatten-pieces s, pieces-starts_upper s)

flatten-chunks_of : (p : Text × List Text) → flatten (chunks_of p) ≡ p.0 ++ flatten p.1
unfolding chunks_of
flatten-chunks_of ([], r) = refl
flatten-chunks_of (c ∷ p, r) = refl

-- Put together again, the chunks of a name are the name without its underscores: no other
-- character is lost, moved or repeated.
pub flatten-chunk_name : (name : Text) → flatten (chunk_name name) ≡ select no_underscore name
unfolding chunk_name
flatten-chunk_name name = flatten-chunks_of (pieces name) ∙ flatten-pieces name

starts_upper-ne_nil : (s : Text) → starts_upper s ≡ true → (pieces s).1 ≢ []
unfolding pieces starts_upper is_upper
starts_upper-ne_nil [] h = cc
starts_upper-ne_nil (c ∷ s) h = ground arith

pieces-ne_nil : (c : ℕ) (s : Text) → (pieces (c ∷ s)).0 ≡ [] → (pieces (c ∷ s)).1 ≢ []
unfolding pieces is_upper
pieces-ne_nil c s h = ground (arith, starts_upper-ne_nil s)

chunks_of-ne_nil : (p : Text × List Text) → (p.0 ≡ [] → p.1 ≢ []) → chunks_of p ≢ []
unfolding chunks_of
chunks_of-ne_nil ([], r) h = h refl
chunks_of-ne_nil (c ∷ p, r) h = λ e. cc

-- Only the empty name has no chunk.
pub chunk_name-ne_nil : (name : Text) → name ≢ [] → chunk_name name ≢ []
unfolding chunk_name
chunk_name-ne_nil [] h = absurd (h refl)
chunk_name-ne_nil (c ∷ s) h = chunks_of-ne_nil (pieces (c ∷ s)) (pieces-ne_nil c s)
