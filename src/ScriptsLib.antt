-- ===== src/ScriptsLib.antt =====
-- dv/uvm/core_ibex/scripts/scripts_lib.py: `pprint_dict` and the substitution of placeholders.
pub mod Aligned
pub mod Format
pub mod RunOne
use emucpu.Prelude.{
  ℕ, zero, suc, ◌+◌, ◌-◌, max, Bool, true, false, ◌||◌, ◌==◌, if◌then◌else◌, List, [], ◌∷◌, ◌++◌,
  ◌≡◌, refl, map, any, length, replicate, drop,
}
use emucpu.Prelude.Dict.{Dict}
use emucpu.Prelude.Text.{Text, codes, join, show_int, starts_with, contains}
use emucpu.IbexConfig.Value.{Value, boolean, integer, text, null}
use emucpu.Requirements.Check.{split_on}

-- `_YAML_MULTILINE_CHARS`
unfoldable pub is_multiline_char : ℕ → Bool
is_multiline_char c = c == b'[' || c == b']' || c == b':' || c == 39 || c == 34 || c == 10

-- `_yaml_value_format` on the printable types; other values are given to `show`, Python's `str`.
unfoldable pub yaml_value_format : (Value → Text) → Value → Text
unfolding is_multiline_char split_on join
yaml_value_format show (text val) =
    if any is_multiline_char val
    then codes "|-\n" ++ join (codes "\n") (map (λ line. codes "  " ++ line) (split_on 10 val))
    else val
yaml_value_format show null = []
yaml_value_format show (integer i) = show_int i
yaml_value_format show (boolean true) = codes "True"
yaml_value_format show (boolean false) = codes "False"
yaml_value_format show v = show v

-- The greatest length of a key, at least 1.
unfoldable pub key_length_from : ℕ → Dict Value → ℕ
key_length_from klen [] = klen
key_length_from klen ((k, v) ∷ d) = key_length_from (max klen (length k)) d

unfoldable pub key_length : Dict Value → ℕ
unfolding key_length_from
key_length d = key_length_from 1 d

-- A line up to its value.
unfoldable pub line_head : ℕ → Text → Text
line_head klen k = k ++ codes ":" ++ replicate (klen - length k) b' ' ++ codes " "

unfoldable pub lines_from : (Value → Text) → ℕ → Dict Value → Text
unfolding line_head yaml_value_format
lines_from show klen [] = []
lines_from show klen ((k, v) ∷ d) =
    line_head klen k ++ yaml_value_format show v ++ codes "\n" ++ lines_from show klen d

-- `pprint_dict`, with what it writes.
unfoldable pub pprint_dict : (Value → Text) → Dict Value → Text
unfolding lines_from key_length
pprint_dict show d = lines_from show (key_length d) d

-- `string.replace(needle, replacement)` for a needle that is not empty: `skip` characters of an
-- occurrence are still to be passed over.
unfoldable pub replace_from : ℕ → Text → Text → Text → Text
unfolding starts_with
replace_from skip needle replacement [] = []
replace_from (suc skip) needle replacement (c ∷ s) = replace_from skip needle replacement s
replace_from zero needle replacement (c ∷ s) =
    let passed = replace_from (length needle - 1) needle replacement s in
    let kept = replace_from zero needle replacement s in
    if starts_with (c ∷ s) needle then replacement ++ passed else c ∷ kept

-- `subst_opt`, with `parameter_format` of riscvdv_interface.py for the placeholder.
unfoldable pub subst_opt : Text → Text → Text → Text
unfolding replace_from contains
subst_opt string name replacement =
    let needle = codes "<" ++ name ++ codes ">" in
    if contains needle string then replace_from 0 needle replacement string else string

-- `subst_dict`, on values that are texts.
unfoldable pub subst_dict : Text → Dict Text → Text
unfolding subst_opt
subst_dict string [] = string
subst_dict string ((key, value) ∷ d) = subst_dict (subst_opt string key value) d

subst_runs :
    subst_dict
      (codes "run <seed> <out>/<seed>")
      ((codes "seed", codes "7") ∷ (codes "out", codes "d") ∷ [])
    ≡ codes "run 7 d/7"
unfolding subst_dict
subst_runs = refl
