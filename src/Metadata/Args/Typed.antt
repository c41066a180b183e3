-- ===== src/Metadata/Args/Typed.antt =====
-- The values that the pairs set have the types that their fields declare.
use emucpu.Prelude.{
  Bool, true, not, any, List, [], ◌∷◌, some, Result, ok, ◌>>=◌, ◌>>◌, guard, bind-eq-ok, All, arith,
  ◌≡◌, refl, Option-cases, if_ind, sym, all, ◌&&◌, inl, inr,
}
use mathlib.Core.Path.{subst}
use emucpu.Prelude.Int.{ℤ, pos, int_eq}
use emucpu.Prelude.Text.{Text, codes, text_eq, text_eq_iff, text_eq_refl}
use emucpu.Prelude.Dict.{Dict, lookup, insert}
use emucpu.Metadata.Args.Fields.{
  DeclaredType, str_type, int_type, bool_type, path_type, optional_int_type, dict_type, unsupported,
  Given, settable, fields,
}
use emucpu.Metadata.Args.{
  ArgError, type_error, FieldValue, str_value, int_value, bool_value, path_value, none_value,
  dict_value, arg_pairs, add_pairs, kv_dict, int_of, optional_int, cast, set_fields, is_refused,
  arg_list_initializer,
}

abbrev pub HasType : DeclaredType → FieldValue → Type 0
HasType str_type (str_value s) = Unit {0}
HasType int_type (int_value i) = Unit {0}
HasType bool_type (bool_value b) = Unit {0}
HasType path_type (path_value p) = Unit {0}
HasType optional_int_type (int_value i) = Unit {0}
HasType optional_int_type none_value = Unit {0}
HasType dict_type (dict_value d) = Unit {0}
HasType _ _ = ⊥

-- The field is declared with a type that its value has.
abbrev pub IsDeclared : Text × FieldValue → Type 0
IsDeclared e = (d : DeclaredType × Given) × (lookup e.0 fields ≡ some d) × HasType d.0 e.1

HasType-ok :
    (t : DeclaredType) (w : FieldValue) {v : FieldValue}
    → HasType t w
    → ◌≡◌ {A = Result ArgError FieldValue} (ok w) (ok v)
    → HasType t v
HasType-ok t w {v} h e = let same : w ≡ v = cc in subst (HasType t) same h

optional_int-HasType :
    (val : Text) {v : FieldValue} → optional_int val ≡ ok v → HasType optional_int_type v
unfolding optional_int
optional_int-HasType [] e = HasType-ok optional_int_type none_value tt e
optional_int-HasType (c ∷ val) e =
    let next : ℤ → Result ArgError FieldValue = λ i. ok (int_value i) in
    let (i, _, same) = bind-eq-ok (int_of (c ∷ val)) next e in
    HasType-ok optional_int_type (int_value i) tt same

cast-HasType :
    (key : Text) (t : DeclaredType) (val : Text) {v : FieldValue}
    → cast key t val ≡ ok v
    → HasType t v
unfolding cast
cast-HasType key str_type val e = HasType-ok str_type (str_value val) tt e
cast-HasType key path_type val e = HasType-ok path_type (path_value val) tt e
cast-HasType key int_type val e =
    let next : ℤ → Result ArgError FieldValue = λ i. ok (int_value i) in
    let (i, _, same) = bind-eq-ok (int_of val) next e in HasType-ok int_type (int_value i) tt same
cast-HasType key bool_type val e =
    let next : ℤ → Result ArgError FieldValue = λ i. ok (bool_value (not (int_eq i (pos 0)))) in
    let (i, _, same) = bind-eq-ok (int_of val) next e in
    HasType-ok bool_type (bool_value (not (int_eq i (pos 0)))) tt same
cast-HasType key optional_int_type val e = optional_int-HasType val e
cast-HasType key dict_type val e = absurd cc
cast-HasType key unsupported val e = absurd cc

insert-IsDeclared :
    (k : Text) (v : FieldValue) (d : Dict FieldValue)
    → IsDeclared (k, v)
    → All IsDeclared d
    → All IsDeclared (insert k v d)
unfolding insert
insert-IsDeclared k v [] h all = (h, tt)
insert-IsDeclared k v ((j, w) ∷ d) h (here, all) =
    if_ind (λ e. All IsDeclared e) (text_eq j k)
      (λ same. (subst (λ i. IsDeclared (i, v)) (sym ((text_eq_iff j k).0 same)) h, all))
      (λ _. (here, insert-IsDeclared k v d h all))

set_fields-IsDeclared :
    (kv : Dict Text) (more : Dict (DeclaredType × Given)) (args_dict : Dict FieldValue)
    {out : Dict FieldValue}
    → All (λ f. lookup f.0 fields ≡ some f.1) more
    → All IsDeclared args_dict
    → set_fields kv more args_dict ≡ ok out
    → All IsDeclared out
unfolding set_fields
set_fields-IsDeclared kv [] args_dict {out} listed all e =
    let same : args_dict ≡ out = cc in subst (All IsDeclared) same all
set_fields-IsDeclared kv ((key, (t, how)) ∷ more) args_dict (here, listed) all e =
    elim (Option-cases (lookup key kv)) [
      | inl missing ↦
          set_fields-IsDeclared kv more args_dict listed all (rw (set_fields, missing) at e)
      | inr (val, found) ↦
          let next : FieldValue → Result ArgError (Dict FieldValue) =
            λ v. set_fields kv more (insert key v args_dict) in
          let went : cast key t val >>= next ≡ ok _ = rw (set_fields, found) at e in
          let (v, casted, rest) = bind-eq-ok (cast key t val) next went in
          set_fields-IsDeclared kv more (insert key v args_dict) listed
            (insert-IsDeclared key v args_dict ((t, how), here, cast-HasType key t val casted) all)
            rest
    ]

-- Each name of a table is found in it, if no other entry has it.
abbrev fresh : {V : Type 0} → Text → Dict V → Bool
fresh k d = all (λ f. not (text_eq k f.0)) d

abbrev distinct : {V : Type 0} → Dict V → Bool
distinct [] = true
distinct ((k, v) ∷ d) = fresh k d && distinct d

lookup-below :
    {V : Type 0} (k : Text) (v : V) (table d : Dict V)
    → fresh k d ≡ true
    → All (λ f. lookup f.0 table ≡ some f.1) d
    → All (λ f. lookup f.0 ((k, v) ∷ table) ≡ some f.1) d
unfolding lookup
lookup-below k v table [] h found = tt
lookup-below k v table ((j, w) ∷ d) h (here, found) =
    (ground arith, lookup-below k v table d (ground arith) found)

lookup-listed : {V : Type 0} (d : Dict V) → distinct d ≡ true → All (λ f. lookup f.0 d ≡ some f.1) d
unfolding lookup
lookup-listed [] h = tt
lookup-listed ((k, v) ∷ d) h =
    (rw (text_eq_refl k) refl, lookup-below k v d d (ground arith) (lookup-listed d (ground arith)))

fields-distinct : distinct fields ≡ true
unfolding fields text_eq
fields-distinct = refl

raw_args_str_type : lookup (codes "raw_args_str") fields ≡ some (str_type, settable)
unfolding fields lookup text_eq
raw_args_str_type = refl

raw_args_dict_type : lookup (codes "raw_args_dict") fields ≡ some (dict_type, settable)
unfolding fields lookup text_eq
raw_args_dict_type = refl

-- Whatever text of pairs it is called with, every attribute that `arg_list_initializer` hands to the
-- constructor is a field of the class, and its value has the type that the field declares.
pub arg_list_initializer-IsDeclared :
    (args_list : Text) {args_dict : Dict FieldValue}
    → arg_list_initializer args_list ≡ ok args_dict
    → All IsDeclared args_dict
unfolding arg_list_initializer
arg_list_initializer-IsDeclared args_list {args_dict} e =
    let raw : List (Text × Text) → Dict FieldValue = λ pairs.
      (codes "raw_args_str", str_value args_list)
      ∷ (codes "raw_args_dict", dict_value (add_pairs [] pairs))
      ∷ [] in
    let last : List (Text × Text) → Dict FieldValue → Result ArgError (Dict FieldValue) =
      λ pairs d. guard (not (any (is_refused (kv_dict pairs)) fields)) type_error >> ok d in
    let next : List (Text × Text) → Result ArgError (Dict FieldValue) =
      λ pairs. set_fields (kv_dict pairs) fields (raw pairs) >>= last pairs in
    let (pairs, _, went) = bind-eq-ok (arg_pairs args_list) next e in
    let (d, set, ended) =
      bind-eq-ok (set_fields (kv_dict pairs) fields (raw pairs)) (last pairs) went in
    let (_, _, done) =
      bind-eq-ok (guard (not (any (is_refused (kv_dict pairs)) fields)) type_error) (λ _. ok d)
        ended in
    let same : d ≡ args_dict = cc in
    subst (All IsDeclared) same (
      set_fields-IsDeclared (kv_dict pairs) fields (raw pairs)
        (lookup-listed fields fields-distinct)
        (
          ((str_type, settable), raw_args_str_type, tt),
          (((dict_type, settable), raw_args_dict_type, tt), tt),
        )
        set)
