-- ===== src/ScriptsLib/Format.antt =====
-- `format_to_str`, `format_to_cmd` and `format_dict_to_printable_dict` of scripts_lib.py, and the
-- command of riscv-dv's run.py that riscvdv_interface.py begins.
use emucpu.Prelude.{
  Bool, true, false, if◌then◌else◌, List, [], ◌∷◌, Result, ok, raise, ◌>>=◌, map_ok,
}
use emucpu.Prelude.Int.{ℤ}
use emucpu.Prelude.Text.{Text, codes, join, show_int}
use emucpu.Prelude.Dict.{Dict}
use emucpu.Stdlib.OsPath.{join_path}

-- What a list or a dictionary that is formatted may hold.
pub data Item : Type 0 where
  text : Text → Item
  integer : ℤ → Item
  boolean : Bool → Item
  path : Text → Item
  nothing : Item
  object : Text → Item

-- TypeError of `format_to_str`.
pub data FormatError : Type 0 where
  type_error : FormatError

-- `format_to_str`; `resolve` is the method of a path, and an object of another type is given with
-- what `str` makes of it.
unfoldable pub format_to_str : (Text → Text) → Item → Result FormatError Text
unfolding show_int
format_to_str resolve (text s) = ok s
format_to_str resolve (integer i) = ok (show_int i)
format_to_str resolve (boolean true) = ok (codes "True")
format_to_str resolve (boolean false) = ok (codes "False")
format_to_str resolve (path p) = ok (resolve p)
format_to_str resolve nothing = ok []
format_to_str resolve (object shown) = raise type_error

-- `format_to_cmd`; the error stands for its RuntimeError.
unfoldable pub format_to_cmd : (Text → Text) → List Item → Result FormatError (List Text)
unfolding format_to_str map_ok
format_to_cmd resolve input_arg = map_ok (format_to_str resolve) input_arg

-- A value of a dictionary: a single item, a list of items with the list's text, or a dictionary,
-- given by its text.
pub data Entry : Type 0 where
  single : Item → Entry
  items : List Item → Text → Entry
  nested : Text → Entry

-- `str(v)`, for an item of no printable type.
unfoldable pub or_str : Text → Result FormatError Text → Text
or_str shown (ok s) = s
or_str shown (raise e) = shown

unfoldable pub printable : (Text → Text) → Entry → Text
unfolding format_to_str or_str map_ok join
printable resolve (nested shown) = shown
printable resolve (items l shown) =
    or_str shown (map_ok (format_to_str resolve) l >>= λ words. ok (join (codes " ") words))
printable resolve (single (object shown)) = shown
printable resolve (single item) = or_str [] (format_to_str resolve item)

-- `format_dict_to_printable_dict`
unfoldable pub format_dict_to_printable_dict : (Text → Text) → Dict Entry → Dict Text
unfolding printable
format_dict_to_printable_dict resolve [] = []
format_dict_to_printable_dict resolve ((k, v) ∷ d) =
    (k, printable resolve v) ∷ format_dict_to_printable_dict resolve d

-- `get_run_cmd` of riscvdv_interface.py, on the paths _RISCV_DV and _CORE_IBEX_RISCV_DV_EXTENSION.
unfoldable pub get_run_cmd : Text → Text → Bool → List Item
unfolding join_path
get_run_cmd riscv_dv extension verbose =
    text (codes "python3")
    ∷ path (join_path riscv_dv (codes "run.py"))
    ∷ text (codes "--testlist")
    ∷ path (join_path extension (codes "testlist.yaml"))
    ∷ text (codes "--gcc_opts=-mno-strict-align")
    ∷ text (codes "--custom_target")
    ∷ path extension
    ∷ text (codes "--csr_yaml")
    ∷ path (join_path extension (codes "csr_description.yaml"))
    ∷ text (codes "--mabi=ilp32")
    ∷ (if verbose then text (codes "--verbose") ∷ [] else [])
