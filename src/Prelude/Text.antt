-- ===== src/Prelude/Text.antt =====
-- Python's texts, as lists of code points, and the `str` methods that the tools call.
use Prim.Native.Char.{code}
use Prim.Native.String.{String}
use Prim.Native.Nat.{ℕ, zero, suc, ◌+◌, ◌/◌, ◌%◌}
use mathlib.Core.Path.{◌≡◌, refl}
use mathlib.Core.Logic.{◌↔◌}
use mathlib.Core.Bool.{Bool, true, false, ◌&&◌, ◌||◌}
use mathlib.Core.List.{List, [], ◌∷◌, ◌++◌}
use native.Mathlib.Omega.{arith}
use emucpu.Prelude.Int.{ℤ, pos, negsuc}
use emucpu.Prelude.Tests.{◌==◌, leb, if◌then◌else◌}

abbrev pub Text : Type 0
Text = List ℕ

-- A literal.
abbrev pub codes : String → Text
codes String.[] = []
codes (String.◌∷◌ c s) = code c ∷ codes s

-- `a == b`
unfoldable pub text_eq : Text → Text → Bool
text_eq [] [] = true
text_eq (x ∷ xs) (y ∷ ys) = x == y && text_eq xs ys
text_eq _ _ = false

pub text_eq_iff : (a b : Text) → (text_eq a b ≡ true) ↔ (a ≡ b)
unfolding text_eq
text_eq_iff (x ∷ a) (y ∷ b) = ground (arith, text_eq_iff a b)
text_eq_iff _ _ = ground arith

pub text_eq_refl : (a : Text) → text_eq a a ≡ true
text_eq_refl a = (text_eq_iff a a).1 refl

-- `s.startswith(prefix)`
unfoldable pub starts_with : Text → Text → Bool
starts_with s [] = true
starts_with [] (c ∷ cs) = false
starts_with (x ∷ xs) (c ∷ cs) = x == c && starts_with xs cs

pub starts_with-append : (a b : Text) → starts_with (a ++ b) a ≡ true
unfolding starts_with
starts_with-append [] [] = refl
starts_with-append [] (c ∷ b) = refl
starts_with-append (c ∷ a) b = ground (arith, starts_with-append a b)

-- `s.endswith(suffix)`
unfoldable pub ends_with : Text → Text → Bool
ends_with [] suffix = text_eq [] suffix
ends_with (c ∷ s) suffix = text_eq (c ∷ s) suffix || ends_with s suffix

-- `needle in s`
unfoldable pub contains : Text → Text → Bool
unfolding starts_with
contains needle [] = starts_with [] needle
contains needle (x ∷ xs) = starts_with (x ∷ xs) needle || contains needle xs

-- `sep.join(parts)`
unfoldable pub join : Text → List Text → Text
join sep [] = []
join sep (x ∷ []) = x
join sep (x ∷ y ∷ r) = x ++ sep ++ join sep (y ∷ r)

-- `str(n)` for n ≥ 0, by fuel: a number has at most one digit more than its value.
abbrev digit : ℕ → ℕ
digit n = b'0' + n

unfoldable pub digits_onto : ℕ → ℕ → Text → Text
digits_onto zero n out = out
digits_onto (suc fuel) n out =
    let more = digits_onto fuel (n / 10) (digit (n % 10) ∷ out) in
    if n / 10 == 0 then digit (n % 10) ∷ out else more

unfoldable pub show_nat : ℕ → Text
unfolding digits_onto
show_nat n = digits_onto (suc n) n []

unfoldable pub show_int : ℤ → Text
unfolding show_nat
show_int (pos n) = show_nat n
show_int (negsuc n) = b'-' ∷ show_nat (suc n)

show_int_runs : show_int (negsuc 119) ≡ codes "-120"
unfolding show_int
show_int_runs = refl

-- The ASCII characters that `str.strip` and `str.split` take for white space.
unfoldable pub is_space : ℕ → Bool
is_space c = c == b' ' || (leb 9 c && leb c 13) || (leb 28 c && leb c 31)

unfoldable pub strip_left : Text → Text
unfolding is_space
strip_left [] = []
strip_left (c ∷ s) = if is_space c then strip_left s else c ∷ s

unfoldable pub strip_right : Text → Text
unfolding is_space
strip_right [] = []
strip_right (c ∷ s) = keep c (strip_right s)
  where
    keep : ℕ → Text → Text
    keep d [] = if is_space d then [] else d ∷ []
    keep d (e ∷ t) = d ∷ e ∷ t

-- `s.strip()`
unfoldable pub strip : Text → Text
unfolding strip_left strip_right
strip s = strip_right (strip_left s)

strip_runs : strip (codes " a b\n") ≡ codes "a b"
unfolding strip
strip_runs = refl
