-- ===== src/Conductor/Stored.antt =====
-- Strategies as they are kept in JSON files: `decode_strategy`, `load_strategy` and
-- `store_strategy`. Memory and time are natural numbers here, floats in the source.
pub mod RoundTrip
use emucpu.Prelude.{
  ℕ, zero, suc, Bool, true, false, if◌then◌else◌, List, [], ◌∷◌, map, Option, none, some, Result,
  ok, raise, ◌>>=◌, map_ok,
}
use emucpu.Prelude.Int.{ℤ, pos, negsuc}
use emucpu.Prelude.Text.{Text}
use emucpu.Conductor.Process.{ProcessResult}
use emucpu.Conductor.Steps.{Strategy}

-- What `json.load` returns and `json.dump` takes.
mutual
  pub data Json : Type 0 where
    null : Json
    number : ℤ → Json
    string : Text → Json
    array : Jsons → Json

  pub data Jsons : Type 0 where
    nil : Jsons
    cons : Json → Jsons → Jsons

-- An index out of range, or a value that is not of the annotated type: the source passes it on.
pub data DecodeError : Type 0 where
  index_error : DecodeError
  other_type : DecodeError

abbrev pub list_json : List Json → Jsons
list_json [] = nil
list_json (j ∷ js) = cons j (list_json js)

abbrev pub option_json : Option Text → Json
option_json none = null
option_json (some s) = string s

abbrev pub code_json : Option ℤ → Json
code_json none = null
code_json (some code) = number code

-- The element that `store_strategy` writes for a proof step.
unfoldable pub encode_strategy : Strategy → Json
encode_strategy s = array (
    list_json (
      number (pos s.step)
      ∷ array (list_json (map string s.props))
      ∷ string s.config
      ∷ array (
          list_json (
            code_json s.procres.code
            ∷ number (pos s.procres.max_mem)
            ∷ number (pos s.procres.dt)
            ∷ string s.procres.reason
            ∷ option_json s.procres.stdout
            ∷ option_json s.procres.stderr
            ∷ []))
      ∷ []))

abbrev pub elements : Jsons → List Json
elements nil = []
elements (cons j js) = j ∷ elements js

unfoldable pub as_list : Json → Result DecodeError (List Json)
as_list (array js) = ok (elements js)
as_list _ = raise other_type

unfoldable pub as_nat : Json → Result DecodeError ℕ
as_nat (number (pos n)) = ok n
as_nat _ = raise other_type

unfoldable pub as_text : Json → Result DecodeError Text
as_text (string s) = ok s
as_text _ = raise other_type

unfoldable pub as_option : Json → Result DecodeError (Option Text)
as_option null = ok none
as_option (string s) = ok (some s)
as_option _ = raise other_type

unfoldable pub as_code : Json → Result DecodeError (Option ℤ)
as_code null = ok none
as_code (number code) = ok (some code)
as_code _ = raise other_type

-- `encoded[i]`
unfoldable pub at : ℕ → List Json → Result DecodeError Json
at i [] = raise index_error
at zero (j ∷ js) = ok j
at (suc i) (j ∷ js) = at i js

-- `encoded[i] if len(encoded) > i else None`
unfoldable pub at_or_none : ℕ → List Json → Result DecodeError (Option Text)
unfolding as_option
at_or_none i [] = ok none
at_or_none zero (j ∷ js) = as_option j
at_or_none (suc i) (j ∷ js) = at_or_none i js

unfoldable pub decode_result : List Json → Result DecodeError ProcessResult
unfolding as_nat as_text as_code at at_or_none
decode_result encoded = do
  code ← at 0 encoded >>= as_code
  reason ← at 3 encoded >>= as_text
  max_mem ← at 1 encoded >>= as_nat
  dt ← at 2 encoded >>= as_nat
  stdout ← at_or_none 4 encoded
  stderr ← at_or_none 5 encoded
  ok (record {
    code = code;
    reason = reason;
    max_mem = max_mem;
    dt = dt;
    stdout = stdout;
    stderr = stderr;
  })

unfoldable pub decode_strategy : Json → Result DecodeError Strategy
unfolding as_list as_nat as_text at decode_result
decode_strategy json = do
  encoded ← as_list json
  step ← at 0 encoded >>= as_nat
  props ← at 1 encoded >>= as_list >>= map_ok as_text
  config ← at 2 encoded >>= as_text
  procres ← at 3 encoded >>= as_list >>= decode_result
  ok (record { step = step; props = props; config = config; procres = procres })

-- `strategies/step{step}.json`: not there, no JSON, or a value.
pub data StrategyFile : Type 0 where
  missing : StrategyFile
  malformed : StrategyFile
  holds : Json → StrategyFile

unfoldable pub decode_all : Json → Result DecodeError (List Strategy)
unfolding as_list decode_strategy
decode_all json = as_list json >>= map_ok decode_strategy

-- `load_strategy`, with `--fresh`.
unfoldable pub load_strategy : Bool → StrategyFile → Result DecodeError (Option (List Strategy))
unfolding decode_all
load_strategy true file = ok none
load_strategy false missing = ok none
load_strategy false malformed = ok none
load_strategy false (holds json) = decode_all json >>= λ strategy. ok (some strategy)

unfoldable pub encode_all : List Strategy → Json
unfolding encode_strategy
encode_all strategy = array (list_json (map encode_strategy strategy))

-- `store_strategy`, with `--no-store` and with what saving leaves in the file: the file afterwards,
-- and what is returned.
unfoldable pub store_strategy :
    Bool
    → (Json → StrategyFile)
    → List Strategy
    → StrategyFile
    → StrategyFile × Result DecodeError (List Strategy)
unfolding encode_all decode_all
store_strategy true save strategy file = (file, decode_all (encode_all strategy))
store_strategy false save strategy file =
    (save (encode_all strategy), decode_all (encode_all strategy))
