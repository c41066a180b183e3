-- ===== src/Metadata/Args.antt =====
-- `arg_list_initializer` of metadata.py: the fields that KEY=VALUE pairs set.
pub mod Typed
pub mod Fields
use emucpu.Prelude.{
  ℕ, ◌+◌, Bool, true, false, not, ◌&&◌, leb, if◌then◌else◌, List, [], ◌∷◌, map, Option, none, some,
  Result, ok, raise, ◌>>=◌, ◌>>◌, guard, map_ok, any,
}
use emucpu.Prelude.Int.{ℤ, pos, int_eq}
use emucpu.Prelude.Text.{Text, codes, text_eq}
use emucpu.Prelude.Dict.{Dict, lookup, insert}
use emucpu.Stdlib.Shlex.{ShlexError, shlex_split}
use emucpu.Conductor.Select.{cut}
use emucpu.Conductor.Prove.{parse_int}
use emucpu.Metadata.Args.Fields.{
  DeclaredType, str_type, int_type, bool_type, path_type, optional_int_type, Given, settable,
  by_caller, not_given, fields,
}

-- ValueError for a pair without `=` or a number that cannot be read; RuntimeError for a field of
-- another type; TypeError of the constructor, for a field that it is not to be given.
pub data ArgError : Type 0 where
  bad_words : ShlexError → ArgError
  unpack_error : Text → ArgError
  value_error : Text → ArgError
  runtime_error : Text → ArgError
  type_error : ArgError

pub data FieldValue : Type 0 where
  str_value : Text → FieldValue
  int_value : ℤ → FieldValue
  bool_value : Bool → FieldValue
  path_value : Text → FieldValue
  none_value : FieldValue
  dict_value : Dict Text → FieldValue

-- `pair.split('=', maxsplit=1)`, of which there are to be two.
unfoldable pub pair_of : Text → Result ArgError (Text × Text)
unfolding cut
pair_of pair = elim (cut b'=' pair).1 [
  | none ↦ raise (unpack_error pair)
  | some v ↦ ok ((cut b'=' pair).0, v)
]

abbrev or_bad_words : Result ShlexError (List Text) → Result ArgError (List Text)
or_bad_words (ok words) = ok words
or_bad_words (raise e) = raise (bad_words e)

unfoldable pub arg_pairs : Text → Result ArgError (List (Text × Text))
unfolding shlex_split map_ok pair_of
arg_pairs args_list = or_bad_words (shlex_split args_list) >>= λ words. map_ok pair_of words

-- A dictionary comprehension: of two pairs with a key the later counts.
unfoldable pub add_pairs : Dict Text → List (Text × Text) → Dict Text
unfolding insert
add_pairs d [] = d
add_pairs d ((k, v) ∷ pairs) = add_pairs (insert k v d) pairs

-- `str.lower`, for ASCII.
unfoldable pub lower : Text → Text
lower [] = []
lower (c ∷ s) = (if leb b'A' c && leb c b'Z' then c + 32 else c) ∷ lower s

unfoldable pub kv_dict : List (Text × Text) → Dict Text
unfolding add_pairs lower
kv_dict pairs = add_pairs [] (map (λ p. (lower p.0, p.1)) pairs)

-- `int(val)`
unfoldable pub int_of : Text → Result ArgError ℤ
unfolding parse_int
int_of val = elim (parse_int val) [ ok i ↦ ok i | raise e ↦ raise (value_error val) ]

-- `int(val) if val else None`
unfoldable pub optional_int : Text → Result ArgError FieldValue
unfolding int_of
optional_int [] = ok none_value
optional_int (c ∷ val) = int_of (c ∷ val) >>= λ i. ok (int_value i)

-- The value for a field of a type.
unfoldable pub cast : Text → DeclaredType → Text → Result ArgError FieldValue
unfolding int_of optional_int
cast key str_type val = ok (str_value val)
cast key int_type val = int_of val >>= λ i. ok (int_value i)
cast key bool_type val = int_of val >>= λ i. ok (bool_value (not (int_eq i (pos 0))))
cast key path_type val = ok (path_value val)
cast key optional_int_type val = optional_int val
cast key _ val = raise (runtime_error key)

-- The loop over the fields, onto `args_dict`.
unfoldable pub set_fields :
    Dict Text → Dict (DeclaredType × Given) → Dict FieldValue → Result ArgError (Dict FieldValue)
unfolding cast lookup insert
set_fields kv [] args_dict = ok args_dict
set_fields kv ((key, (t, how)) ∷ more) args_dict = elim (lookup key kv) [
  | none ↦ set_fields kv more args_dict
  | some val ↦ cast key t val >>= λ v. set_fields kv more (insert key v args_dict)
]

abbrev is_settable : Given → Bool
is_settable settable = true
is_settable _ = false

-- A keyword that the constructor does not take, or that is given to it twice.
unfoldable pub is_refused : Dict Text → Text × (DeclaredType × Given) → Bool
unfolding lookup
is_refused kv (key, (t, how)) = elim (lookup key kv) [
  | none ↦ false
  | some val ↦ not (is_settable how)
]

-- What the constructor is given besides its directories, the commit and the time.
unfoldable pub arg_list_initializer : Text → Result ArgError (Dict FieldValue)
unfolding arg_pairs kv_dict add_pairs set_fields is_refused fields
arg_list_initializer args_list = do
  pairs ← arg_pairs args_list
  args_dict ← set_fields (kv_dict pairs) fields (
      (codes "raw_args_str", str_value args_list)
      ∷ (codes "raw_args_dict", dict_value (add_pairs [] pairs))
      ∷ [])
  guard (not (any (is_refused (kv_dict pairs)) fields)) type_error >> ok args_dict
