-- ===== src/Stdlib/Hex.antt =====
-- `int(s, 16)`.
use emucpu.Prelude.{
  ℕ, zero, suc, ◌+◌, ◌-◌, ◌*◌, ◌&&◌, ◌||◌, ◌==◌, leb, if◌then◌else◌, [], ◌∷◌, Option, none, some,
}
use emucpu.Prelude.Int.{ℤ, pos, negsuc}
use emucpu.Prelude.Text.{Text}

-- A digit of either case.
unfoldable pub hex_digit : ℕ → Option ℕ
hex_digit c =
    if leb b'0' c && leb c b'9'
    then some (c - b'0')
    else if leb b'a' c && leb c b'f'
    then some (c - b'a' + 10)
    else if leb b'A' c && leb c b'F'
    then some (c - b'A' + 10)
    else none

-- The value of hexadecimal digits, behind what is read already.
unfoldable pub hex_onto : ℕ → Text → Option ℕ
unfolding hex_digit
hex_onto n [] = some n
hex_onto n (c ∷ s) = elim (hex_digit c) [ none ↦ none | some d ↦ hex_onto (16 * n + d) s ]

-- `int(s, 16)`, for a text of digits with or without `0x`.
unfoldable pub hex_value : Text → Option ℕ
unfolding hex_onto
hex_value [] = none
hex_value (c ∷ []) = hex_onto 0 (c ∷ [])
hex_value (c ∷ d ∷ []) = hex_onto 0 (c ∷ d ∷ [])
hex_value (c ∷ d ∷ e ∷ s) =
    if c == b'0' && (d == b'x' || d == b'X') then hex_onto 0 (e ∷ s) else hex_onto 0 (c ∷ d ∷ e ∷ s)

-- The same, with a minus sign.
abbrev opposite : ℕ → ℤ
opposite zero = pos 0
opposite (suc n) = negsuc n

unfoldable pub hex_int : Text → Option ℤ
unfolding hex_value
hex_int [] = none
hex_int (c ∷ s) =
    if c == b'-'
    then elim (hex_value s) [ none ↦ none | some n ↦ some (opposite n) ]
    else elim (hex_value (c ∷ s)) [ none ↦ none | some n ↦ some (pos n) ]
