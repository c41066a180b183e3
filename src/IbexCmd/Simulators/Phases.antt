-- ===== src/IbexCmd/Simulators/Phases.antt =====
-- The output types that ibex_cmd.py asks for against the ones that ibex_config.py has.
use emucpu.Prelude.{List, [], Option, none, some, All, ◌≡◌, ◌≢◌, refl, ◌⊎◌, inl, inr}
use emucpu.Prelude.Dict.{lookup, lookup-All}
use emucpu.Prelude.Text.{Text, text_eq}
use emucpu.IbexCmd.Simulators.{SimCfg, sim_cfgs, Stage, compile, sim, output_type}
use emucpu.IbexConfig.Fields.{FieldType, bool, str, int}
use emucpu.IbexConfig.Outputs.Coverage.{field_words}
use emucpu.IbexConfig.Outputs.{SimOpts, SimArgs, sim_outputters, find_outputter}
use emucpu.IbexConfig.Value.{Value}

-- The words that one field contributes to a simulator's options at a stage.
abbrev words_of : Option SimOpts → SimArgs → FieldType → Text → Value → List Text
words_of none args typ fld v = []
words_of (some o) args typ fld v = field_words o args typ fld (some v)

abbrev outputter_of : Option Text → Option SimOpts
outputter_of none = none
outputter_of (some t) = find_outputter t sim_outputters

abbrev pub phase_words : Text → SimCfg → Stage → SimArgs → FieldType → Text → Value → List Text
phase_words simulator c stage = words_of (outputter_of (output_type simulator stage c))

-- Exactly one of the two stages passes the field on.
abbrev pub PassedOnce : Text → SimCfg → Type 0
PassedOnce simulator c =
    (args : SimArgs) (typ : FieldType) (fld : Text) (v : Value)
    → ((phase_words simulator c compile args typ fld v ≢ [])
        × (phase_words simulator c sim args typ fld v ≡ []))
      ⊎ ((phase_words simulator c compile args typ fld v ≡ [])
          × (phase_words simulator c sim args typ fld v ≢ []))

passed-All : All (λ e. PassedOnce e.0 e.1) sim_cfgs
unfolding sim_cfgs output_type sim_outputters find_outputter text_eq
passed-All = (
  (λ args. elim [
    | bool ↦ λ fld v. inl (λ e. cc, refl)
    | str ↦ λ fld v. inl (λ e. cc, refl)
    | int ↦ λ fld v. inl (λ e. cc, refl)
  ]),
  (
    (λ args. elim [
      | bool ↦ λ fld v. inr (refl, λ e. cc)
      | str ↦ λ fld v. inl (λ e. cc, refl)
      | int ↦ λ fld v. inr (refl, λ e. cc)
    ]),
    (
      (λ args. elim [
        | bool ↦ λ fld v. inr (refl, λ e. cc)
        | str ↦ λ fld v. inl (λ e. cc, refl)
        | int ↦ λ fld v. inr (refl, λ e. cc)
      ]),
      (
        (λ args. elim [
          | bool ↦ λ fld v. inl (λ e. cc, refl)
          | str ↦ λ fld v. inl (λ e. cc, refl)
          | int ↦ λ fld v. inl (λ e. cc, refl)
        ]),
        (
          (λ args. elim [
            | bool ↦ λ fld v. inl (λ e. cc, refl)
            | str ↦ λ fld v. inl (λ e. cc, refl)
            | int ↦ λ fld v. inl (λ e. cc, refl)
          ]),
          tt,
        ),
      ),
    ),
  ),
)

-- For each supported simulator, the output types that ibex_cmd.py asks for are ones that
-- ibex_config.py has, and of the compile-time and run-time options exactly one passes each
-- field on: no field is lost between the two stages and none is given twice.
pub passed_once :
    (simulator : Text) {c : SimCfg} → lookup simulator sim_cfgs ≡ some c → PassedOnce simulator c
passed_once simulator h = lookup-All PassedOnce sim_cfgs simulator passed-All h
