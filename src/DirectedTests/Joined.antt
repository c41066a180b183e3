-- ===== src/DirectedTests/Joined.antt =====
-- The join of a test with its configuration.
use emucpu.Prelude.{
  true, List, [], ◌∷◌, Option, none, some, ok, raise, ◌≡◌, refl, sym, ◌∙◌, Bool-cases, Option-cases,
  inl, inr,
}
use mathlib.Core.List.{Mem, mem-cons_self, mem-cons_of_mem}
use emucpu.Prelude.Text.{Text, text_eq, text_eq_iff}
use emucpu.Prelude.Dict.{Dict, DistinctKeys, lookup, insert, lookup-insert}
use emucpu.IbexConfig.Value.{Value}
use emucpu.DirectedTests.{
  no_config, same_value, config_of_entry, find_config, join_dicts, with_config,
}

-- The first of two values that is there.
abbrev pub first_of : Option Value → Option Value → Option Value
first_of (some v) later = some v
first_of none later = later

lookup-join_dicts :
    (c t : Dict Value) (k : Text)
    → DistinctKeys t
    → lookup k (join_dicts c t) ≡ first_of (lookup k t) (lookup k c)
unfolding join_dicts lookup
lookup-join_dicts c [] k h = refl
lookup-join_dicts c ((j, v) ∷ t) k (absent, distinct) = elim (Bool-cases (text_eq j k)) [
  | inl same ↦
      let equal : j ≡ k = (text_eq_iff j k).0 same in
      let gone : lookup k t ≡ none = rw equal at absent in
      lookup-join_dicts (insert j v c) t k distinct ∙ rw (gone, lookup-insert j k v c, same) refl
  | inr other ↦
      lookup-join_dicts (insert j v c) t k distinct ∙ rw (lookup-insert j k v c, other) refl
]

find_config_sound :
    (name : Value) (configs : List (Dict Value)) {c : Dict Value}
    → find_config name configs ≡ some c
    → Mem c configs × (same_value (config_of_entry c) name ≡ true)
unfolding find_config
find_config_sound name [] e = absurd cc
find_config_sound name (d ∷ configs) {c = c} e =
    elim (Bool-cases (same_value (config_of_entry d) name)) [
      | inl same ↦
          let found : some d ≡ some c = rw (find_config, same) at e in
          let equal : d ≡ c = cc in (rw (sym equal) mem-cons_self, rw equal at same)
      | inr other ↦
          let found : find_config name configs ≡ some c = rw (find_config, other) at e in
          let (there, same) = find_config_sound name configs found in
          (mem-cons_of_mem d there, same)
    ]

-- The entry has all that the test says, and what it leaves open as one of the configurations says
-- that has the name in the test.
abbrev pub IsJoined : List (Dict Value) → Dict Value → Dict Value → Type 0
IsJoined configs t joined =
    (c : Dict Value) × Mem c configs
    × (same_value (config_of_entry c) (config_of_entry t) ≡ true)
    × ((k : Text) → lookup k joined ≡ first_of (lookup k t) (lookup k c))

pub with_config-IsJoined :
    (configs : List (Dict Value)) (t : Dict Value) {m : Dict Value}
    → DistinctKeys t
    → with_config configs t ≡ ok m
    → IsJoined configs t m
unfolding with_config
with_config-IsJoined configs t {m = m} distinct e =
    elim (Option-cases (find_config (config_of_entry t) configs)) [
      | inl missing ↦
          let clash : raise (no_config t) ≡ ok m = rw (with_config, missing) at e in absurd cc
      | inr (c, found) ↦
          let joined : ok (join_dicts c t) ≡ ok m = rw (with_config, found) at e in
          let equal : join_dicts c t ≡ m = cc in
          let (there, same) = find_config_sound (config_of_entry t) configs found in
          (c, there, same, λ k. rw (sym equal) (lookup-join_dicts c t k distinct))
    ]
