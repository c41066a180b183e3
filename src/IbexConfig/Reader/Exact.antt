-- ===== src/IbexConfig/Reader/Exact.antt =====
-- Exactly which dictionaries `Config.__init__` accepts.
use emucpu.Prelude.{
  Bool, true, false, not, ◌&&◌, ◌||◌, ◌==◌, List, [], ◌∷◌, Option, some, Result, ok, raise, is_ok,
  ◌>>=◌, all, All, select, arith, ◌↔◌, ◌≡◌, refl,
}
use emucpu.Prelude.Dict.{Dict, lookup, keys, mem_text}
use emucpu.Prelude.Int.{pos}
use emucpu.Prelude.Text.{Text, codes, text_eq_iff, text_eq_refl}
use emucpu.IbexConfig.Fields.{FieldType, bool, str, int, known_fields, known_keys}
use emucpu.IbexConfig.Value.{Value, boolean, integer, text}
use emucpu.IbexConfig.Reader.{
  read_bool, read_int, read_str, extra_keys, absent_keys, no_keys, read_fields, config_of_dict,
}

-- The values that a field of each type may have.
abbrev pub accepts : FieldType → Option Value → Bool
accepts bool (some (boolean b)) = true
accepts bool (some (integer (pos n))) = n == 0 || n == 1
accepts str (some (text s)) = true
accepts int (some (boolean b)) = true
accepts int (some (integer i)) = true
accepts _ _ = false

pub is_ok-read_bool :
    (fld : Text) (yml : Dict Value) → is_ok (read_bool fld yml) ≡ accepts bool (lookup fld yml)
unfolding read_bool
is_ok-read_bool fld yml = ground arith

pub is_ok-read_int :
    (fld : Text) (yml : Dict Value) → is_ok (read_int fld yml) ≡ accepts int (lookup fld yml)
unfolding read_int
is_ok-read_int fld yml = ground arith

pub is_ok-read_str :
    (fld : Text) (yml : Dict Value) → is_ok (read_str fld yml) ≡ accepts str (lookup fld yml)
unfolding read_str
is_ok-read_str fld yml = ground arith

is_ok-bind {ℓ κ μ} :
    {E : Type ℓ} {A : Type κ} {B : Type μ} (m : Result E A) (f : A → Result E B) {t b : Bool}
    → is_ok m ≡ t
    → ((a : A) → is_ok (f a) ≡ b)
    → is_ok (m >>= f) ≡ t && b
is_ok-bind (ok a) f p q = rw (← p) (q a)
is_ok-bind (raise e) f p q = rw (← p)

-- Every read of `read_fields`, as one test.
is_ok-read_fields :
    (yml : Dict Value)
    → is_ok (read_fields yml) ≡ all (λ f. accepts f.1 (lookup f.0 yml)) known_fields
unfolding read_fields known_fields
is_ok-read_fields yml = is_ok-bind _ _ (is_ok-read_bool (codes "RV32E") yml) (λ _.
    is_ok-bind _ _ (is_ok-read_str (codes "RV32M") yml) (λ _.
      is_ok-bind _ _ (is_ok-read_str (codes "RV32B") yml) (λ _.
        is_ok-bind _ _ (is_ok-read_str (codes "RV32ZC") yml) (λ _.
          is_ok-bind _ _ (is_ok-read_str (codes "RegFile") yml) (λ _.
            is_ok-bind _ _ (is_ok-read_bool (codes "BranchTargetALU") yml) (λ _.
              is_ok-bind _ _ (is_ok-read_bool (codes "WritebackStage") yml) (λ _.
                is_ok-bind _ _ (is_ok-read_bool (codes "ICache") yml) (λ _.
                  is_ok-bind _ _ (is_ok-read_bool (codes "ICacheECC") yml) (λ _.
                    is_ok-bind _ _ (is_ok-read_bool (codes "ICacheScramble") yml) (λ _.
                      is_ok-bind _ _ (is_ok-read_bool (codes "BranchPredictor") yml) (λ _.
                        is_ok-bind _ _ (is_ok-read_bool (codes "DbgTriggerEn") yml) (λ _.
                          is_ok-bind _ _ (is_ok-read_bool (codes "SecureIbex") yml) (λ _.
                            is_ok-bind _ _ (is_ok-read_bool (codes "PMPEnable") yml) (λ _.
                              is_ok-bind _ _ (is_ok-read_int (codes "PMPGranularity") yml) (λ _.
                                is_ok-bind _ _ (is_ok-read_int (codes "PMPNumRegions") yml) (λ _.
                                  is_ok-bind _ _ (is_ok-read_int (codes "MHPMCounterNum") yml) (λ _.
                                    is_ok-bind _ _ (is_ok-read_int (codes "MHPMCounterWidth") yml)
                                      (λ _. refl))))))))))))))))))

All-of_all {ℓ} :
    {A : Type ℓ} (p : A → Bool) (xs : List A) → (all p xs ≡ true) ↔ All (λ x. p x ≡ true) xs
All-of_all p [] = (λ _. tt, λ _. refl)
All-of_all p (x ∷ xs) = ground (arith, All-of_all p xs)

-- A set difference is empty exactly when the first set is included in the second.
no_keys-select_included :
    (ks js : List Text) (k : Text)
    → no_keys (select (λ j. not (mem_text j ks)) js) ≡ true
    → mem_text k js ≡ true
    → mem_text k ks ≡ true
unfolding mem_text
no_keys-select_included ks [] k h m = cc
no_keys-select_included ks (j ∷ js) k h m =
    ground (arith, text_eq_iff j k, no_keys-select_included ks js k)

included_no_keys-select :
    (ks js : List Text)
    → ((k : Text) → mem_text k js ≡ true → mem_text k ks ≡ true)
    → no_keys (select (λ j. not (mem_text j ks)) js) ≡ true
unfolding mem_text
included_no_keys-select ks [] h = refl
included_no_keys-select ks (j ∷ js) h =
    ground (arith, text_eq_refl j, h j, included_no_keys-select ks js (λ k m. ground (arith, h k)))

-- The same keys, whatever their order.
abbrev pub SameKeys : List Text → List Text → Type 0
SameKeys ks js = (k : Text) → mem_text k ks ≡ mem_text k js

Bool_ext : (a b : Bool) → (a ≡ true → b ≡ true) → (b ≡ true → a ≡ true) → a ≡ b
Bool_ext a b f g = ground arith

keys_checked :
    (yml : Dict Value)
    → (no_keys (extra_keys yml) && no_keys (absent_keys yml) ≡ true)
      ↔ SameKeys (keys yml) known_keys
unfolding extra_keys absent_keys
keys_checked yml = (
  λ h k.
      Bool_ext _ _ (no_keys-select_included known_keys (keys yml) k (ground arith))
        (no_keys-select_included (keys yml) known_keys k (ground arith)),
  λ same. ground (
    arith,
    included_no_keys-select known_keys (keys yml) (λ k m. rw (same k) at m),
    included_no_keys-select (keys yml) known_keys (λ k m. rw (same k) m),
  ),
)

config_of_dict-is_ok :
    (yml : Dict Value)
    → is_ok (config_of_dict yml) ≡ (
        (no_keys (extra_keys yml) && no_keys (absent_keys yml))
        && all (λ f. accepts f.1 (lookup f.0 yml)) known_fields)
unfolding config_of_dict
config_of_dict-is_ok yml = ground (arith, is_ok-read_fields yml)

and_true : {a b : Bool} → a ≡ true → b ≡ true → a && b ≡ true
and_true p q = rw (p, q)

-- `Config(yml)` succeeds on exactly the dictionaries that have the known keys and no others, each
-- with a value that its declared type accepts; every other dictionary is refused.
pub config_of_dict-accepts :
    (yml : Dict Value)
    → (is_ok (config_of_dict yml) ≡ true) ↔ (
        SameKeys (keys yml) known_keys
        × All (λ f. accepts f.1 (lookup f.0 yml) ≡ true) known_fields)
config_of_dict-accepts yml = rw (config_of_dict-is_ok yml) (
  λ h. (
    (keys_checked yml).0 (ground arith),
    (All-of_all (λ f. accepts f.1 (lookup f.0 yml)) known_fields).0 (ground arith),
  ),
  λ (same, typed).
      and_true ((keys_checked yml).1 same)
        ((All-of_all (λ f. accepts f.1 (lookup f.0 yml)) known_fields).1 typed),
)
