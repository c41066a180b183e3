-- ===== src/IbexConfig/Outputs/Coverage.antt =====
-- What `SimOpts.output` writes for a configuration that was accepted.
use emucpu.Prelude.{true, false, List, [], ◌∷◌, ◌++◌, map, Option, none, some, ok, All, ◌≡◌, refl}
use emucpu.Prelude.Dict.{lookup}
use emucpu.Prelude.Int.{pos}
use emucpu.Prelude.Text.{Text, show_int}
use emucpu.IbexConfig.Fields.{Config, FieldType, bool, str, int, known_fields}
use emucpu.IbexConfig.Reader.Exact.{accepts}
use emucpu.IbexConfig.Value.{Value, boolean, integer, text}
use emucpu.IbexConfig.Outputs.{
  SimOpts, SimArgs, hier_prefix, param, field_opts, sim_opts_from, sim_words, quote,
}
use mathlib.Core.List.{append-nil, append_assoc}

-- What a field's value is on a command line: a text itself, a number in decimal, and a Boolean as
-- 0 or 1.
abbrev pub shown : Value → Text
shown (text s) = s
shown (boolean true) = show_int (pos 1)
shown (boolean false) = show_int (pos 0)
shown (integer i) = show_int i
shown _ = []

-- The words for one field: a macro definition for a text, a parameter of the instance otherwise.
abbrev pub field_words : SimOpts → SimArgs → FieldType → Text → Option Value → List Text
field_words o args typ fld none = []
field_words o args str fld (some v) =
    map quote (o.define_set_fn (args.string_define_prefix ++ fld) (shown v))
field_words o args bool fld (some v) =
    map quote (o.param_set_fn (hier_prefix o args ++ fld) (shown v))
field_words o args int fld (some v) =
    map quote (o.param_set_fn (hier_prefix o args ++ fld) (shown v))

abbrev pub all_words : SimOpts → SimArgs → Config → List (Text × FieldType) → List Text
all_words o args config [] = []
all_words o args config ((fld, typ) ∷ fields) =
    field_words o args typ fld (lookup fld config.params) ++ all_words o args config fields

field_opts-accepts :
    (o : SimOpts) (args : SimArgs) (typ : FieldType) (fld : Text) (v : Value)
    → accepts typ (some v) ≡ true
    → (opts : List Text) × (field_opts o args typ fld v ≡ ok opts)
      × (map quote opts ≡ field_words o args typ fld (some v))
unfolding field_opts
field_opts-accepts o args bool fld (boolean true) h = (_, refl, refl)
field_opts-accepts o args bool fld (boolean false) h = (_, refl, refl)
field_opts-accepts o args bool fld (integer i) h = (_, refl, refl)
field_opts-accepts o args str fld (text s) h = (_, refl, refl)
field_opts-accepts o args int fld (boolean true) h = (_, refl, refl)
field_opts-accepts o args int fld (boolean false) h = (_, refl, refl)
field_opts-accepts o args int fld (integer i) h = (_, refl, refl)
field_opts-accepts o args _ fld _ h = cc

accepts-some :
    (typ : FieldType) (o : Option Value) → accepts typ o ≡ true → (v : Value) × (o ≡ some v)
accepts-some typ (some v) h = (v, refl)
accepts-some bool none h = cc
accepts-some str none h = cc
accepts-some int none h = cc

sim_opts_from-all_words :
    (o : SimOpts) (args : SimArgs) (config : Config) (fields : List (Text × FieldType))
    (out : List Text)
    → All (λ f. accepts f.1 (lookup f.0 config.params) ≡ true) fields
    → sim_opts_from o args config fields out ≡ ok (out ++ all_words o args config fields)
unfolding sim_opts_from
sim_opts_from-all_words o args config [] out h = rw append-nil
sim_opts_from-all_words o args config ((fld, typ) ∷ fields) out (h, hs) =
    let (v, here) = accepts-some typ (lookup fld config.params) h in
    let (opts, written, words) = field_opts-accepts o args typ fld v (rw here at h) in
    rw
      (
        here,
        written,
        sim_opts_from-all_words o args config fields (out ++ map quote opts) hs,
        words,
        append_assoc,
        param,
      )
      refl

-- On a configuration whose fields have values that their types accept, `SimOpts.output` does not
-- fail, and writes for each known field in order the words that the simulator's format gives it: a
-- macro definition if the field is a text, a parameter of the instance (with Booleans as 0 or 1)
-- otherwise.
pub sim_words-all_words :
    (o : SimOpts) (args : SimArgs) (config : Config)
    → All (λ f. accepts f.1 (lookup f.0 config.params) ≡ true) known_fields
    → sim_words o config args ≡ ok (all_words o args config known_fields)
unfolding sim_words
sim_words-all_words o args config h = sim_opts_from-all_words o args config known_fields [] h
