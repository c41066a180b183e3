-- ===== src/Conductor/Stored/RoundTrip.antt =====
-- Strategies that are stored are loaded as they were.
use emucpu.Prelude.{List, [], ◌∷◌, map, Option, none, some, ok, map_ok, ◌≡◌, refl, ap}
use emucpu.Prelude.Int.{ℤ}
use emucpu.Prelude.Text.{Text}
use emucpu.Conductor.Steps.{Strategy}
use emucpu.Conductor.Stored.{
  Json, string, elements, list_json, option_json, code_json, encode_strategy, as_list, as_text,
  as_option, as_code, at, at_or_none, as_nat, decode_result, decode_strategy, decode_all,
  encode_all,
}

elements-list_json : (js : List Json) → elements (list_json js) ≡ js
elements-list_json [] = refl
elements-list_json (j ∷ js) = ap (λ ks. j ∷ ks) (elements-list_json js)

map_ok-string : (props : List Text) → map_ok as_text (map string props) ≡ ok props
unfolding as_text map_ok
map_ok-string [] = refl
map_ok-string (p ∷ props) = rw (map_ok-string props) refl

as_code-code_json : (code : Option ℤ) → as_code (code_json code) ≡ ok code
unfolding as_code
as_code-code_json none = refl
as_code-code_json (some code) = refl

as_option-option_json : (s : Option Text) → as_option (option_json s) ≡ ok s
unfolding as_option
as_option-option_json none = refl
as_option-option_json (some s) = refl

decode-encode : (s : Strategy) → decode_strategy (encode_strategy s) ≡ ok s
unfolding decode_strategy encode_strategy as_list decode_result at at_or_none as_nat as_text
decode-encode s =
    rw
      (
        elements-list_json (map string s.props),
        map_ok-string s.props,
        as_code-code_json s.procres.code,
        as_option-option_json s.procres.stdout,
        as_option-option_json s.procres.stderr,
      )
      refl

map_ok-encode :
    (strategy : List Strategy) → map_ok decode_strategy (map encode_strategy strategy) ≡ ok strategy
unfolding map_ok
map_ok-encode [] = refl
map_ok-encode (s ∷ strategy) = rw (decode-encode s, map_ok-encode strategy) refl

pub decode_all-encode_all :
    (strategy : List Strategy) → decode_all (encode_all strategy) ≡ ok strategy
unfolding decode_all encode_all as_list
decode_all-encode_all strategy =
    rw (elements-list_json (map encode_strategy strategy)) (map_ok-encode strategy)
