-- ===== src/Requirements/Read/Accepts.antt =====
-- Which dictionaries `dict_to_tool_req` accepts.
use emucpu.Prelude.{
  Bool, true, false, ◌&&◌, ◌||◌, List, [], ◌∷◌, Option, none, some, all, is_ok, arith, ◌≡◌, refl,
  if_ind, Bool-cases, inl, inr,
}
use emucpu.Prelude.Dict.{Dict, lookup, keys, DistinctKeys}
use emucpu.Prelude.Text.{Text, codes, text_eq, text_eq_iff}
use emucpu.IbexConfig.Value.{Value, boolean, text}
use emucpu.Requirements.Read.{erase, min_version_of, as_needed_of, no_more, dict_to_tool_req}

abbrev pub is_text : Option Value → Bool
is_text (some (text s)) = true
is_text _ = false

abbrev pub is_absent_or_bool : Option Value → Bool
is_absent_or_bool none = true
is_absent_or_bool (some (boolean b)) = true
is_absent_or_bool (some _) = false

lookup-erase_ne :
    (key j : Text) (d : Dict Value) → text_eq key j ≡ false → lookup j (erase key d) ≡ lookup j d
unfolding lookup erase
lookup-erase_ne key j [] h = refl
lookup-erase_ne key j ((k, v) ∷ d) h =
    ground (arith, lookup-erase_ne key j d, text_eq_iff key j, text_eq_iff k key, text_eq_iff k j)

all-keys_absent :
    (p : Text → Bool) (key : Text) (d : Dict Value)
    → lookup key d ≡ none
    → all p (keys d) ≡ all (λ k. text_eq k key || p k) (keys d)
unfolding lookup
all-keys_absent p key [] h = refl
all-keys_absent p key ((k, v) ∷ d) h = ground (arith, all-keys_absent p key d)

all-keys-erase :
    (p : Text → Bool) (key : Text) (d : Dict Value)
    → DistinctKeys d
    → all p (keys (erase key d)) ≡ all (λ k. text_eq k key || p k) (keys d)
unfolding erase
all-keys-erase p key [] u = refl
all-keys-erase p key ((k, v) ∷ d) (u, us) = elim (Bool-cases (text_eq k key)) [
  | inl same ↦
      let absent : lookup key d ≡ none = rw ((text_eq_iff k key).0 same) at u in
      ground (arith, all-keys_absent p key d)
  | inr other ↦ ground (arith, all-keys-erase p key d)
]

lookup-erase_absent :
    (key j : Text) (d : Dict Value) → lookup j d ≡ none → lookup j (erase key d) ≡ none
unfolding lookup erase
lookup-erase_absent key j [] h = refl
lookup-erase_absent key j ((k, v) ∷ d) h = ground (arith, lookup-erase_absent key j d)

erase-DistinctKeys : (key : Text) (d : Dict Value) → DistinctKeys d → DistinctKeys (erase key d)
unfolding erase
erase-DistinctKeys key [] u = tt
erase-DistinctKeys key ((k, v) ∷ d) (u, us) =
    if_ind DistinctKeys (text_eq k key) (λ _. us)
      (λ _. (lookup-erase_absent key k d u, erase-DistinctKeys key d us))

is_ok-no_more : (tool : Text) (ks : List Text) → is_ok (no_more tool ks) ≡ all (λ _. false) ks
unfolding no_more
is_ok-no_more tool [] = refl
is_ok-no_more tool (k ∷ ks) = refl

is_ok-min_version : (tool : Text) (o : Option Value) → is_ok (min_version_of tool o) ≡ is_text o
unfolding min_version_of
is_ok-min_version tool none = refl
is_ok-min_version tool (some (text s)) = refl
is_ok-min_version tool (some _) = refl

is_ok-as_needed :
    (tool : Text) (o : Option Value) → is_ok (as_needed_of tool o) ≡ is_absent_or_bool o
unfolding as_needed_of
is_ok-as_needed tool none = refl
is_ok-as_needed tool (some (boolean b)) = refl
is_ok-as_needed tool (some _) = refl

abbrev min_key : Text
min_key = codes "min_version"

abbrev as_key : Text
as_key = codes "as_needed"

different : text_eq min_key as_key ≡ false
unfolding text_eq
different = refl

-- A dictionary is accepted as a tool's requirement exactly if it has a text under `min_version`,
-- nothing or a Boolean under `as_needed`, and no other key; the keys are distinct, as a Python
-- dictionary's are.
pub dict_to_tool_req-is_ok :
    (tool : Text) (raw : Dict Value)
    → DistinctKeys raw
    → is_ok (dict_to_tool_req tool raw)
      ≡ is_text (lookup min_key raw)
        && is_absent_or_bool (lookup as_key raw)
        && all (λ k. text_eq k min_key || text_eq k as_key || false) (keys raw)
unfolding dict_to_tool_req
dict_to_tool_req-is_ok tool raw u = ground (
  arith,
  is_ok-min_version tool (lookup min_key raw),
  lookup-erase_ne min_key as_key raw different,
  is_ok-as_needed tool (lookup as_key raw),
  is_ok-no_more tool (keys (erase as_key (erase min_key raw))),
  all-keys-erase (λ _. false) as_key (erase min_key raw) (erase-DistinctKeys min_key raw u),
  all-keys-erase (λ k. text_eq k as_key || false) min_key raw u,
)
