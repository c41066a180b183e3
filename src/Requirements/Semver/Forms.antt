-- ===== src/Requirements/Semver/Forms.antt =====
-- What `to_semver` makes of well-formed versions.
use emucpu.Prelude.{
  ℕ, ◌+◌, ◌*◌, Bool, true, false, not, [], ◌∷◌, ◌++◌, ok, all, arith, ◌≡◌, ◌≢◌, refl,
}
use mathlib.Core.List.{append-nil}
use emucpu.Prelude.Text.{Text, codes, show_nat}
use emucpu.Requirements.Semver.{
  is_digit, is_hex, span, some_digits, dots, literal, at_end, verible_semver, value,
  optional_number, separated, vcs_tail, vcs_semver, to_semver, vcs, verible,
}

-- A non-empty text of digits.
abbrev pub IsNumber : Text → Type 0
IsNumber [] = ⊥
IsNumber (c ∷ s) = all is_digit (c ∷ s) ≡ true

-- What does not begin with a digit.
abbrev pub stops : (ℕ → Bool) → Text → Bool
stops p [] = true
stops p (c ∷ s) = not (p c)

pub span-append :
    (p : ℕ → Bool) (a r : Text) → all p a ≡ true → stops p r ≡ true → span p (a ++ r) ≡ (a, r)
unfolding span
span-append p [] [] h e = refl
span-append p [] (c ∷ r) h e = ground arith
span-append p (x ∷ a) r h e = ground (arith, span-append p a r)

some_digits-append :
    (a r : Text) → IsNumber a → stops is_digit r ≡ true → some_digits (a ++ r) ≡ ok (a, r)
unfolding some_digits
some_digits-append [] r h e = absurd h
some_digits-append (c ∷ a) r h e = rw (span-append is_digit (c ∷ a) r h e)

pub some_digits-all : (a : Text) → IsNumber a → some_digits a ≡ ok (a, [])
some_digits-all a h =
    let e : some_digits (a ++ []) ≡ ok (a, []) = some_digits-append a [] h refl in
    rw (append-nil a) at e

span-all : (p : ℕ → Bool) (a : Text) → all p a ≡ true → span p a ≡ (a, [])
span-all p a h =
    let e : span p (a ++ []) ≡ (a, []) = span-append p a [] h refl in rw (append-nil a) at e

-- A Verible version `vA.B-C-gHASH` becomes `A.B.C`.
pub verible_semver-dots :
    (a b c : Text) (hash : Text)
    → IsNumber a
    → IsNumber b
    → IsNumber c
    → hash ≢ []
    → all is_hex hash ≡ true
    → to_semver verible (b'v' ∷ (a ++ (b'.' ∷ (b ++ (b'-' ∷ (c ++ (b'-' ∷ b'g' ∷ hash))))))) true
      ≡ ok (dots a b c)
unfolding to_semver verible_semver literal at_end
verible_semver-dots a b c [] ha hb hc n h = absurd (n refl)
verible_semver-dots a b c (x ∷ hash) ha hb hc n h =
    let first =
      some_digits-append a (b'.' ∷ (b ++ (b'-' ∷ (c ++ (b'-' ∷ b'g' ∷ x ∷ hash))))) ha refl in
    let second = some_digits-append b (b'-' ∷ (c ++ (b'-' ∷ b'g' ∷ x ∷ hash))) hb refl in
    let third = some_digits-append c (b'-' ∷ b'g' ∷ x ∷ hash) hc refl in
    rw (verible_semver, first, second, third, span-all is_hex (x ∷ hash) h) refl

separated-append :
    (year month tail : Text)
    → IsNumber year
    → IsNumber month
    → stops is_digit tail ≡ true
    → separated (year ++ (b'.' ∷ (month ++ tail))) ≡ ok (year, month, tail)
unfolding separated
separated-append year month tail hy hm h =
    rw
      (
        separated,
        some_digits-append year (b'.' ∷ (month ++ tail)) hy refl,
        some_digits-append month tail hm h,
      )
      refl

abbrev pub suffixed : Text → Text → Text
suffixed sp patch = b'-' ∷ b'S' ∷ b'P' ∷ sp ++ b'-' ∷ patch

numbers_of :
    (sp patch : Text)
    → IsNumber sp
    → IsNumber patch
    → optional_number (codes "-SP") (suffixed sp patch) ≡ (value sp, b'-' ∷ patch)
unfolding optional_number literal
numbers_of sp patch hs hp = rw (optional_number, some_digits-append sp (b'-' ∷ patch) hs refl) refl

dashed :
    (patch : Text) → IsNumber patch → optional_number (codes "-") (b'-' ∷ patch) ≡ (value patch, [])
unfolding optional_number literal
dashed patch hp = rw (optional_number, some_digits-all patch hp) refl

vcs_tail-suffixed :
    (from_req : Bool) (year month sp patch : Text)
    → IsNumber sp
    → IsNumber patch
    → vcs_tail from_req (year, month, suffixed sp patch)
      ≡ ok (year ++ b'.' ∷ month ++ show_nat (value sp * 100 + value patch))
unfolding vcs_tail
vcs_tail-suffixed true year month sp patch hs hp =
    rw (numbers_of sp patch hs hp, dashed patch hp) refl
vcs_tail-suffixed false year month sp patch hs hp =
    rw (numbers_of sp patch hs hp, dashed patch hp) refl

vcs_tail-nil :
    (from_req : Bool) (year month : Text)
    → vcs_tail from_req (year, month, []) ≡ ok (year ++ b'.' ∷ month ++ codes "0")
unfolding vcs_tail
vcs_tail-nil true year month = refl
vcs_tail-nil false year month = refl

-- A VCS version `YEAR.MONTH` becomes `YEAR.MONTH0`, and `YEAR.MONTH-SPn-p` the year and the month
-- with the number 100 n + p written directly behind the month, with no dot between them.
pub vcs_semver-appended :
    (year month sp patch : Text) (from_req : Bool)
    → IsNumber year
    → IsNumber month
    → IsNumber sp
    → IsNumber patch
    → (to_semver vcs (year ++ (b'.' ∷ (month ++ []))) from_req
        ≡ ok (year ++ b'.' ∷ month ++ codes "0"))
      × (to_semver vcs (year ++ (b'.' ∷ (month ++ suffixed sp patch))) from_req
          ≡ ok (year ++ b'.' ∷ month ++ show_nat (value sp * 100 + value patch)))
unfolding to_semver vcs_semver
vcs_semver-appended year month sp patch from_req hy hm hs hp = (
  rw (separated-append year month [] hy hm refl, vcs_tail-nil from_req year month) refl,
  rw
      (
        separated-append year month (suffixed sp patch) hy hm refl,
        vcs_tail-suffixed from_req year month sp patch hs hp,
      )
      refl,
)
