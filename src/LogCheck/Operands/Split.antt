-- ===== src/LogCheck/Operands/Split.antt =====
-- The operands before and after the conversion.
use emucpu.Prelude.{
  ℕ, Bool, true, false, not, ◌==◌, List, [], ◌∷◌, ◌++◌, map, all, All, arith, ◌≡◌, ◌≢◌, refl,
  if_ind,
}
use mathlib.Core.List.{append_assoc}
use emucpu.Prelude.Text.{Text, join}
use emucpu.Requirements.Check.{split_on, put}
use emucpu.LogCheck.Operands.{convert_operand, convert_operands_to_abi}

abbrev pub has_no : ℕ → Text → Bool
has_no sep s = all (λ c. not (c == sep)) s

split_on-word : (sep : ℕ) (w : Text) → has_no sep w ≡ true → split_on sep w ≡ w ∷ []
unfolding split_on
split_on-word sep [] h = refl
split_on-word sep (c ∷ w) h = ground (arith, split_on-word sep w)

put-ne_nil : (c : ℕ) (ws : List Text) → put c ws ≢ []
put-ne_nil c [] = λ e. cc
put-ne_nil c (w ∷ ws) = λ e. cc

split_on-ne_nil : (sep : ℕ) (s : Text) → split_on sep s ≢ []
unfolding split_on
split_on-ne_nil sep [] = λ e. cc
split_on-ne_nil sep (c ∷ s) =
    if_ind (λ ws. ws ≢ []) (c == sep) (λ _. λ e. cc) (λ _. put-ne_nil c (split_on sep s))

split_on-append :
    (sep : ℕ) (w s : Text)
    → has_no sep w ≡ true
    → split_on sep (w ++ (sep ∷ s)) ≡ w ∷ split_on sep s
unfolding split_on
split_on-append sep [] s h = ground arith
split_on-append sep (c ∷ w) s h = ground (arith, split_on-append sep w s)

split_on-join :
    (sep : ℕ) (w : Text) (ws : List Text)
    → All (λ v. has_no sep v ≡ true) (w ∷ ws)
    → split_on sep (join (sep ∷ []) (w ∷ ws)) ≡ w ∷ ws
unfolding join
split_on-join sep w [] (h, hs) = split_on-word sep w h
split_on-join sep w (v ∷ ws) (h, hs) = ground (
  arith,
  append_assoc w (sep ∷ []) (join (sep ∷ []) (v ∷ ws)),
  split_on-append sep w (join (sep ∷ []) (v ∷ ws)) h,
  split_on-join sep v ws hs,
)

put-has_no :
    (sep c : ℕ) (ws : List Text)
    → (c == sep) ≡ false
    → All (λ v. has_no sep v ≡ true) ws
    → All (λ v. has_no sep v ≡ true) (put c ws)
put-has_no sep c [] n h = (ground arith, tt)
put-has_no sep c (w ∷ ws) n (h, hs) = (ground arith, hs)

-- No word of a split holds the separator.
split_on-has_no : (sep : ℕ) (s : Text) → All (λ v. has_no sep v ≡ true) (split_on sep s)
unfolding split_on
split_on-has_no sep [] = (refl, tt)
split_on-has_no sep (c ∷ s) =
    if_ind (All (λ v. has_no sep v ≡ true)) (c == sep) (λ _. (refl, split_on-has_no sep s))
      (λ other. put-has_no sep c (split_on sep s) other (split_on-has_no sep s))

convert_operand-has_no :
    (gpr_to_abi : Text → Text) (ops : List Text)
    → ((op : Text) → has_no b',' op ≡ true → has_no b',' (gpr_to_abi op) ≡ true)
    → All (λ v. has_no b',' v ≡ true) ops
    → All (λ v. has_no b',' v ≡ true) (map (convert_operand gpr_to_abi) ops)
unfolding convert_operand
convert_operand-has_no gpr_to_abi [] f h = tt
convert_operand-has_no gpr_to_abi (op ∷ ops) f (h, hs) =
    (ground (arith, f op), convert_operand-has_no gpr_to_abi ops f hs)

split_on-join_of :
    (ops : List Text) (s : Text) (f : Text → Text)
    → split_on b',' s ≡ ops
    → All (λ v. has_no b',' v ≡ true) (map f ops)
    → split_on b',' (join (b',' ∷ []) (map f ops)) ≡ map f ops
unfolding split_on
split_on-join_of [] [] f e h = absurd (ground arith)
split_on-join_of [] (c ∷ s) f e h = absurd (ground (arith, split_on-ne_nil b',' (c ∷ s)))
split_on-join_of (op ∷ ops) s f e h = split_on-join b',' (f op) (map f ops) h

-- If the names of registers hold no comma, the operands after the conversion are those before it,
-- each of them converted by itself: none is lost, joined with another or split.
pub convert_operands_to_abi-map :
    (gpr_to_abi : Text → Text) (operand_str : Text)
    → ((op : Text) → has_no b',' op ≡ true → has_no b',' (gpr_to_abi op) ≡ true)
    → split_on b',' (convert_operands_to_abi gpr_to_abi operand_str)
      ≡ map (convert_operand gpr_to_abi) (split_on b',' operand_str)
unfolding convert_operands_to_abi
convert_operands_to_abi-map gpr_to_abi s f =
    split_on-join_of (split_on b',' s) s (convert_operand gpr_to_abi) refl
      (convert_operand-has_no gpr_to_abi (split_on b',' s) f (split_on-has_no b',' s))
