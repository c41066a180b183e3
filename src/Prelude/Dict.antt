-- ===== src/Prelude/Dict.antt =====
-- Python's dictionaries with text keys: association lists in insertion order.
use mathlib.Core.Path.{◌≡◌, refl}
use mathlib.Core.Path.{subst₂}
use mathlib.Core.Logic.{inl, inr}
use mathlib.Core.Bool.{Bool, false, ◌||◌}
use emucpu.Prelude.Lists.{All}
use mathlib.Core.List.{List, [], ◌∷◌, ◌++◌}
use mathlib.Core.Option.{Option, none, some}
use native.Mathlib.Omega.{arith}
use emucpu.Prelude.Tests.{if◌then◌else◌, Bool-cases}
use emucpu.Prelude.Text.{Text, text_eq, text_eq_iff}

abbrev pub Dict {ℓ} : Type ℓ → Type ℓ
Dict V = List (Text × V)

module _ {ℓ} {V : Type ℓ} where
  -- `d.get(k)`
  unfoldable pub lookup : Text → Dict V → Option V
  lookup key [] = none
  lookup key ((k, v) ∷ rest) = if text_eq k key then some v else lookup key rest

  -- `d[k] = v`
  unfoldable pub insert : Text → V → Dict V → Dict V
  insert k v [] = (k, v) ∷ []
  insert k v ((j, w) ∷ d) = if text_eq j k then (j, v) ∷ d else (j, w) ∷ insert k v d

  abbrev pub keys : Dict V → List Text
  keys [] = []
  keys ((k, v) ∷ d) = k ∷ keys d

  pub lookup-insert :
      (k j : Text) (v : V) (d : Dict V)
      → lookup j (insert k v d) ≡ (if text_eq k j then some v else lookup j d)
  unfolding lookup insert
  lookup-insert k j v [] = refl
  lookup-insert k j v ((i, w) ∷ d) =
      ground (arith, text_eq_iff k j, text_eq_iff i k, text_eq_iff i j, lookup-insert k j v d)

-- What holds of every entry holds of one that is found.
pub lookup-All {ℓ} :
    {V : Type 0} (P : Text → V → Type ℓ) (d : Dict V) (k : Text) {v : V}
    → All (λ e. P e.0 e.1) d
    → lookup k d ≡ some v
    → P k v
unfolding lookup
lookup-All P [] k h e = cc
lookup-All P ((j, w) ∷ d) k h e = elim (Bool-cases (text_eq j k)) [
  | inl same ↦ subst₂ P ((text_eq_iff j k).0 same) (ground arith) h.0
  | inr other ↦ lookup-All P d k h.1 (rw other at e)
]

-- `k in ks`
unfoldable pub mem_text : Text → List Text → Bool
mem_text k [] = false
mem_text k (j ∷ ks) = text_eq j k || mem_text k ks

pub mem_text-append :
    (k : Text) (a b : List Text) → mem_text k (a ++ b) ≡ (mem_text k a || mem_text k b)
unfolding mem_text
mem_text-append k [] b = refl
mem_text-append k (j ∷ a) b = ground (arith, mem_text-append k a b)

-- The keys of a Python dictionary are distinct.
abbrev pub DistinctKeys : {V : Type 0} → Dict V → Type 0
DistinctKeys [] = Unit
DistinctKeys ((k, v) ∷ d) = (lookup k d ≡ none) × DistinctKeys d
