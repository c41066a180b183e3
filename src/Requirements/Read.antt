-- ===== src/Requirements/Read.antt =====
-- `dict_to_tool_req` and `read_tool_requirements`.
pub mod Accepts
use emucpu.Prelude.{
  Bool, true, false, if◌then◌else◌, List, [], ◌∷◌, Option, none, some, Result, ok, raise, ◌>>=◌,
}
use emucpu.Prelude.Dict.{Dict, lookup, insert, keys}
use emucpu.Prelude.Text.{Text, codes, text_eq}
use emucpu.IbexConfig.Value.{Value, boolean, text, as_dict}
use emucpu.Requirements.Semver.{ToolClass, base, edalize, vcs, verible, verilator, vivado, ninja}
use emucpu.Requirements.Check.{ToolReq}

-- A `ReqErr`, with what its message reports.
pub data ReqErr : Type 0 where
  missing_min_version : Text → ReqErr
  min_version_not_a_string : Text → ReqErr
  as_needed_not_a_bool : Text → ReqErr
  unexpected_keys : Text → List Text → ReqErr
  no_requirements : ReqErr
  not_a_dict : ReqErr
  not_a_string_or_dict : Text → ReqErr

-- `del raw[key]`
unfoldable pub erase : Text → Dict Value → Dict Value
erase key [] = []
erase key ((k, v) ∷ rest) = if text_eq k key then rest else (k, v) ∷ erase key rest

unfoldable pub classes : Dict ToolClass
classes =
    (codes "edalize", edalize)
    ∷ (codes "vcs", vcs)
    ∷ (codes "verible", verible)
    ∷ (codes "verilator", verilator)
    ∷ (codes "vivado", vivado)
    ∷ (codes "ninja", ninja)
    ∷ []

unfoldable pub class_of : Text → ToolClass
unfolding classes
class_of tool = elim (lookup tool classes) [ none ↦ base | some c ↦ c ]

unfoldable pub min_version_of : Text → Option Value → Result ReqErr Text
min_version_of tool none = raise (missing_min_version tool)
min_version_of tool (some (text s)) = ok s
min_version_of tool (some _) = raise (min_version_not_a_string tool)

unfoldable pub as_needed_of : Text → Option Value → Result ReqErr Bool
as_needed_of tool none = ok false
as_needed_of tool (some (boolean b)) = ok b
as_needed_of tool (some _) = raise (as_needed_not_a_bool tool)

unfoldable pub no_more : Text → List Text → Result ReqErr (Unit {0})
no_more tool [] = ok tt
no_more tool (k ∷ ks) = raise (unexpected_keys tool (k ∷ ks))

-- `dict_to_tool_req`
unfoldable pub dict_to_tool_req : Text → Dict Value → Result ReqErr ToolReq
unfolding erase class_of min_version_of as_needed_of no_more
dict_to_tool_req tool raw = do
  min_version ← min_version_of tool (lookup (codes "min_version") raw)
  let others = erase (codes "min_version") raw
  as_needed ← as_needed_of tool (lookup (codes "as_needed") others)
  all ← no_more tool (keys (erase (codes "as_needed") others))
  ok (record {
    tool = tool;
    min_version = min_version;
    as_needed = as_needed;
    tool_class = class_of tool;
  })

-- One value of the dictionary: a text is short for a dictionary with a minimum version.
unfoldable pub value_to_tool_req : Text → Value → Result ReqErr ToolReq
unfolding dict_to_tool_req as_dict
value_to_tool_req tool (text s) = dict_to_tool_req tool ((codes "min_version", text s) ∷ [])
value_to_tool_req tool v = elim (as_dict v) [
  | none ↦ raise (not_a_string_or_dict tool)
  | some raw ↦ dict_to_tool_req tool raw
]

unfoldable pub read_items : Dict ToolReq → Dict Value → Result ReqErr (Dict ToolReq)
unfolding value_to_tool_req
read_items reqs [] = ok reqs
read_items reqs ((tool, raw_val) ∷ items) = elim (value_to_tool_req tool raw_val) [
  | raise e ↦ raise e
  | ok req ↦ read_items (insert tool req reqs) items
]

-- `read_tool_requirements`, on `globs.get('__TOOL_REQUIREMENTS__')`.
unfoldable pub read_tool_requirements : Option Value → Result ReqErr (Dict ToolReq)
unfolding read_items as_dict
read_tool_requirements none = raise no_requirements
read_tool_requirements (some v) = elim (as_dict v) [
  | none ↦ raise not_a_dict
  | some raw ↦ read_items [] raw
]
