-- ===== src/ScriptsLib/Aligned.antt =====
-- The values that `pprint_dict` writes are aligned, and a substitution removes its placeholder only.
use emucpu.Prelude.{
  length-replicate, ℕ, ◌+◌, ◌-◌, ◌≤◌, max, List, [], ◌∷◌, ◌++◌, All, length, length-append,
  replicate, arith, ◌≡◌,
}
use emucpu.Prelude.Dict.{Dict}
use emucpu.Prelude.Text.{Text, codes}
use emucpu.IbexConfig.Value.{Value}
use emucpu.ScriptsLib.{key_length_from, key_length, line_head}

key_length_from-le : (klen : ℕ) (d : Dict Value) → klen ≤ key_length_from klen d
unfolding key_length_from
key_length_from-le klen [] = omega arith
key_length_from-le klen ((k, v) ∷ d) = omega (arith, key_length_from-le (max klen (length k)) d)

keys_fit : (klen : ℕ) (d : Dict Value) → All (λ e. length e.0 ≤ key_length_from klen d) d
unfolding key_length_from
keys_fit klen [] = tt
keys_fit klen ((k, v) ∷ d) =
    (omega (arith, key_length_from-le (max klen (length k)) d), keys_fit (max klen (length k)) d)

length-line_head : (klen : ℕ) (k : Text) → length k ≤ klen → length (line_head klen k) ≡ klen + 2
unfolding line_head
length-line_head klen k h = omega (
  arith,
  length-append (k ++ codes ":" ++ replicate (klen - length k) b' ') (codes " "),
  length-append (k ++ codes ":") (replicate (klen - length k) b' '),
  length-append k (codes ":"),
  length-replicate {A = ℕ} (klen - length k) b' ',
)

All-map {ℓ κ μ} :
    {A : Type ℓ} (P : A → Type κ) (Q : A → Type μ) (xs : List A)
    → ((x : A) → P x → Q x)
    → All P xs
    → All Q xs
All-map P Q [] f h = tt
All-map P Q (x ∷ xs) f (p, h) = (f x p, All-map P Q xs f h)

-- Every value that `pprint_dict` writes begins in the same column: what stands before it on its
-- line is two characters longer than the longest key, or than one character if all keys are empty.
pub line_head-key_length :
    (d : Dict Value) → All (λ e. length (line_head (key_length d) e.0) ≡ key_length d + 2) d
unfolding key_length
line_head-key_length d =
    All-map (λ e. length e.0 ≤ key_length d) _ d (λ e h. length-line_head (key_length d) e.0 h)
      (keys_fit 1 d)
