-- ===== src/IbexConfig/Value.antt =====
-- What `yaml.load` returns, as far as the tools look at it: scalars, lists and dictionaries with
-- text keys.
use emucpu.Prelude.{Bool, true, false, [], ◌∷◌, Option, none, some}
use emucpu.Prelude.Dict.{Dict}
use emucpu.Prelude.Int.{ℤ, pos}
use emucpu.Prelude.Text.{Text}

mutual
  pub data Value : Type 0 where
    boolean : Bool → Value
    integer : ℤ → Value
    text : Text → Value
    null : Value
    sequence : Values → Value
    mapping : Entries → Value

  pub data Values : Type 0 where
    nil : Values
    cons : Value → Values → Values

  pub data Entries : Type 0 where
    end : Entries
    entry : Text → Value → Entries → Entries

-- The dictionary that a mapping is.
unfoldable pub entries : Entries → Dict Value
entries end = []
entries (entry k v r) = (k, v) ∷ entries r

-- `isinstance(v, dict)`, with the dictionary.
unfoldable pub as_dict : Value → Option (Dict Value)
unfolding entries
as_dict (mapping e) = some (entries e)
as_dict _ = none

-- `True` is the integer 1.
unfoldable pub bool_int : Bool → ℤ
bool_int true = pos 1
bool_int false = pos 0

-- `isinstance(v, int)`, with the integer.
unfoldable pub as_int : Value → Option ℤ
unfolding bool_int
as_int (boolean b) = some (bool_int b)
as_int (integer i) = some i
as_int _ = none
