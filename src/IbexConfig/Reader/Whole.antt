-- ===== src/IbexConfig/Reader/Whole.antt =====
-- `Configs.__init__` and `parse_config` over a whole file, and the error for missing keys.
use emucpu.Prelude.{
  true, [], ◌∷◌, Option, none, some, Result, ok, raise, is_ok, ◌>>=◌, Option-cases, Result-cases,
  inl, inr, arith, ◌≡◌, refl, ◌↔◌, all, ◌≢◌,
}
use emucpu.Prelude.Dict.{DistinctKeys, Dict, lookup, insert, lookup-insert}
use emucpu.Prelude.Text.{Text, text_eq_iff}
use emucpu.IbexConfig.Fields.{Config}
use emucpu.IbexConfig.Value.{Value, as_dict}
use emucpu.IbexConfig.Reader.{
  ConfigError, missing_keys, read_fields, config_of_dict, extra_keys, absent_keys, config_init,
  add_configs, configs_init, parse_config,
}

read_fields-params : (yml : Dict Value) {cfg : Config} → read_fields yml ≡ ok cfg → cfg.params ≡ yml
unfolding read_fields
read_fields-params yml h = ground arith

-- A `Config` keeps the dictionary that it was made from.
pub config_of_dict-params :
    (yml : Dict Value) {cfg : Config} → config_of_dict yml ≡ ok cfg → cfg.params ≡ yml
unfolding config_of_dict
config_of_dict-params yml {cfg} h = ground (arith, read_fields-params yml {cfg = cfg})

-- A dictionary with no unknown key that lacks a known one is refused with an error for missing
-- keys that names none of them, since the message reports the other set difference.
pub missing_keys_unnamed :
    (yml : Dict Value)
    → extra_keys yml ≡ []
    → absent_keys yml ≢ []
    → config_of_dict yml ≡ raise (missing_keys [])
unfolding config_of_dict
missing_keys_unnamed yml e a = ground arith

-- What `self.configs[k]` is, given what it was and the entries still to be read.
abbrev then_read : Option Config → Option Value → Result ConfigError (Option Config)
then_read old none = ok old
then_read old (some v) = config_init v >>= λ cfg. ok (some cfg)

add_configs-lookup :
    (d : Dict Value) (configs : Dict Config) {m : Dict Config} (k : Text)
    → DistinctKeys d
    → add_configs configs d ≡ ok m
    → then_read (lookup k configs) (lookup k d) ≡ ok (lookup k m)
unfolding add_configs lookup
add_configs-lookup [] configs k u h = ground arith
add_configs-lookup ((j, v) ∷ d) configs {m} k u h = elim (Result-cases (config_init v)) [
  | inl (cfg, read) ↦ ground (
    arith,
    lookup-insert j k cfg configs,
    text_eq_iff j k,
    add_configs-lookup d (insert j cfg configs) {m = m} k,
  )
  | inr (e, bad) ↦ ground arith
]

add_configs-is_ok :
    (d : Dict Value) (configs : Dict Config)
    → is_ok (add_configs configs d) ≡ all (λ e. is_ok (config_init e.1)) d
unfolding add_configs
add_configs-is_ok [] configs = refl
add_configs-is_ok ((k, v) ∷ d) configs = elim (Result-cases (config_init v)) [
  | inl (cfg, read) ↦ ground (arith, add_configs-is_ok d (insert k cfg configs))
  | inr (e, bad) ↦ ground arith
]

parsed-eq-ok :
    (yaml_load : Text → Result Text Value) (name contents : Text) {yml : Value} {d : Dict Value}
    (cfg : Config)
    → yaml_load contents ≡ ok yml
    → as_dict yml ≡ some d
    → DistinctKeys d
    → (parse_config yaml_load name contents ≡ ok cfg) ↔ (
        (all (λ e. is_ok (config_init e.1)) d ≡ true)
        × ((v : Value) × (lookup name d ≡ some v) × (config_init v ≡ ok cfg)))
unfolding parse_config configs_init lookup
parsed-eq-ok yaml_load name contents {d} cfg l a u = elim (Result-cases (add_configs [] d)) [
  | inl (m, added) ↦
      let found = add_configs-lookup d [] {m = m} name u added in
      elim (Option-cases (lookup name d)) [
        | inl absent ↦ (λ h. absurd (ground (arith, found)), λ h. ground arith)
        | inr (v, here) ↦ (
          λ h. (ground (arith, add_configs-is_ok d []), (v, here, ground (arith, found))),
          ground (arith, found),
        )
      ]
  | inr (e, bad) ↦
      (λ h. absurd (ground arith), λ h. absurd (ground (arith, add_configs-is_ok d [])))
]

-- `parse_config` returns the configuration of the given name exactly when the file decodes to a
-- dictionary, every entry of it is a valid configuration, and one has that name. The keys of a
-- dictionary that is decoded are distinct, as those of a Python dictionary are.
pub parse_config-eq-ok :
    (yaml_load : Text → Result Text Value) (name contents : Text) (cfg : Config)
    → ((yml : Value) (d : Dict Value)
        → yaml_load contents ≡ ok yml
        → as_dict yml ≡ some d
        → DistinctKeys d)
    → (parse_config yaml_load name contents ≡ ok cfg) ↔ (
        (yml : Value) × (d : Dict Value) × (yaml_load contents ≡ ok yml)
        × (as_dict yml ≡ some d)
        × (all (λ e. is_ok (config_init e.1)) d ≡ true)
        × ((v : Value) × (lookup name d ≡ some v) × (config_init v ≡ ok cfg)))
unfolding parse_config configs_init
parse_config-eq-ok yaml_load name contents cfg decoded = (
  λ h. elim (Result-cases (yaml_load contents)) [
    | inr (e, bad) ↦ absurd (ground arith)
    | inl (yml, l) ↦ elim (Option-cases (as_dict yml)) [
      | inl other ↦ absurd (ground arith)
      | inr (d, a) ↦
          let (valid, named) =
            (parsed-eq-ok yaml_load name contents cfg l a (decoded yml d l a)).0 h in
          (yml, d, l, a, valid, named)
    ]
  ],
  λ (yml, d, l, a, valid, named).
      (parsed-eq-ok yaml_load name contents cfg l a (decoded yml d l a)).1 (valid, named),
)
