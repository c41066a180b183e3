-- ===== src/Requirements/Semver.antt =====
-- The `to_semver` methods. Their regular expressions are read from left to right: each part is
-- delimited by the next, but for the VCS pattern, whose `.` matches any character.
pub mod Forms
use emucpu.Prelude.{
  ◌≡◌, refl, ℕ, ◌+◌, ◌-◌, ◌*◌, Bool, true, false, not, ◌&&◌, ◌||◌, ◌==◌, leb, if◌then◌else◌, List,
  [], ◌∷◌, ◌++◌, Option, none, some, Result, ok, raise, ◌>>=◌,
}
use emucpu.Prelude.Text.{Text, codes, show_nat}

-- The subclasses of `ToolReq`, and `ToolReq` itself.
pub data ToolClass : Type 0 where
  base edalize vcs verible verilator vivado ninja : ToolClass

-- The `ValueError` for a version of no known format.
pub data SemverError : Type 0 where
  bad_format : SemverError

-- `[0-9]` and `[0-9a-f]`
unfoldable pub is_digit : ℕ → Bool
is_digit c = leb b'0' c && leb c b'9'

unfoldable pub is_hex : ℕ → Bool
unfolding is_digit
is_hex c = is_digit c || (leb b'a' c && leb c b'f')

-- The characters that pass the test, and what follows them.
unfoldable pub span : (ℕ → Bool) → Text → Text × Text
span p [] = ([], [])
span p (c ∷ s) = let (a, r) = span p s in if p c then (c ∷ a, r) else ([], c ∷ s)

abbrev pub some_first : Text × Text → Result SemverError (Text × Text)
some_first ([], r) = raise bad_format
some_first (c ∷ a, r) = ok (c ∷ a, r)

-- `([0-9]+)`, greedy.
unfoldable pub some_digits : Text → Result SemverError (Text × Text)
unfolding span is_digit
some_digits s = some_first (span is_digit s)

unfoldable pub drop_prefix : Text → Text → Option Text
drop_prefix [] s = some s
drop_prefix (c ∷ cs) [] = none
drop_prefix (c ∷ cs) (x ∷ xs) = if x == c then drop_prefix cs xs else none

unfoldable pub literal : Text → Text → Result SemverError Text
unfolding drop_prefix
literal prefix s = elim (drop_prefix prefix s) [ none ↦ raise bad_format | some r ↦ ok r ]

-- The end of the text, for a full match.
unfoldable pub at_end : Text → Result SemverError (Unit {0})
at_end [] = ok tt
at_end (c ∷ s) = raise bad_format

abbrev pub dots : Text → Text → Text → Text
dots a b c = a ++ b'.' ∷ b ++ b'.' ∷ c

-- `VeribleToolReq.to_semver`
unfoldable pub verible_semver : Text → Result SemverError Text
unfolding some_digits literal at_end span is_hex
verible_semver version = do
  v ← literal (codes "v") version
  major ← some_digits v
  minor_on ← literal (codes ".") major.1
  minor ← some_digits minor_on
  patch_on ← literal (codes "-") minor.1
  patch ← some_digits patch_on
  hash_on ← literal (codes "-g") patch.1
  hash ← some_first (span is_hex hash_on)
  all ← at_end hash.1
  ok (dots major.0 minor.0 patch.0)

-- The optional `(?:\.([0-9]+))?` up to the end of the text.
unfoldable pub vivado_patch : Text → Result SemverError Text
unfolding some_digits literal at_end
vivado_patch [] = ok (codes "0")
vivado_patch (c ∷ s) = do
  patch_on ← literal (codes ".") (c ∷ s)
  patch ← some_digits patch_on
  all ← at_end patch.1
  ok patch.0

-- `VivadoToolReq.to_semver`
unfoldable pub vivado_semver : Text → Result SemverError Text
unfolding some_digits literal vivado_patch
vivado_semver version = do
  major ← some_digits version
  minor_on ← literal (codes ".") major.1
  minor ← some_digits minor_on
  patch ← vivado_patch minor.1
  ok (dots major.0 minor.0 patch)

-- `NinjaToolReq.to_semver`: what follows the third number is ignored.
unfoldable pub ninja_semver : Text → Result SemverError Text
unfolding some_digits literal
ninja_semver version = do
  major ← some_digits version
  minor_on ← literal (codes ".") major.1
  minor ← some_digits minor_on
  patch_on ← literal (codes ".") minor.1
  patch ← some_digits patch_on
  ok (dots major.0 minor.0 patch.0)

-- `int` on decimal digits.
unfoldable pub value_onto : ℕ → Text → ℕ
value_onto n [] = n
value_onto n (c ∷ s) = value_onto (n * 10 + (c - b'0')) s

unfoldable pub value : Text → ℕ
unfolding value_onto
value s = value_onto 0 s

-- `(?:PREFIX([0-9]+))?`: the number, or 0 where nothing matches, and what follows.
unfoldable pub optional_number : Text → Text → ℕ × Text
unfolding some_digits literal value
optional_number prefix s = elim (literal prefix s >>= some_digits) [
  | raise e ↦ (0, s)
  | ok d ↦ (value d.0, d.1)
]

-- `.`: any character but a newline.
unfoldable pub any_char : Text → Result SemverError Text
any_char [] = raise bad_format
any_char (c ∷ s) = if c == 10 then raise bad_format else ok s

-- The first two numbers and what follows, with the character between them not a digit.
unfoldable pub separated : Text → Result SemverError (Text × Text × Text)
unfolding some_digits any_char
separated version = do
  major ← some_digits version
  minor_on ← any_char major.1
  minor ← some_digits minor_on
  ok (major.0, minor.0, minor.1)

-- The greedy split of a text of digits for `([0-9]+).([0-9]+)`: the last but one is the `.`.
unfoldable pub split_digits : Text → Result SemverError (Text × Text)
split_digits [] = raise bad_format
split_digits (x ∷ []) = raise bad_format
split_digits (x ∷ y ∷ []) = raise bad_format
split_digits (x ∷ y ∷ z ∷ []) = ok (x ∷ [], z ∷ [])
split_digits (x ∷ y ∷ z ∷ w ∷ s) = split_digits (y ∷ z ∷ w ∷ s) >>= λ r. ok (x ∷ r.0, r.1)

-- The match where the `.` is a digit too.
unfoldable pub run_together : Text → Result SemverError (Text × Text × Text)
unfolding some_digits split_digits
run_together version = do
  number ← some_digits version
  parts ← split_digits number.0
  ok (parts.0, parts.1, number.1)

-- `$`: the end, or a newline before it.
unfoldable pub is_at_end : Text → Bool
is_at_end [] = true
is_at_end (c ∷ []) = c == 10
is_at_end (c ∷ d ∷ s) = false

-- The optional parts of the VCS pattern, and the version that is put together.
unfoldable pub vcs_tail : Bool → Text × Text × Text → Result SemverError Text
unfolding optional_number is_at_end show_nat
vcs_tail from_req (major, minor, tail) =
    let (sp, after_sp) = optional_number (codes "-SP") tail in
    let (patch, rest) = optional_number (codes "-") after_sp in
    if from_req && not (is_at_end rest)
    then raise bad_format
    else ok (major ++ b'.' ∷ minor ++ show_nat (sp * 100 + patch))

abbrev pub else_try {ℓ κ} : {E : Type ℓ} {A : Type κ} → Result E A → Result E A → Result E A
else_try (ok a) other = ok a
else_try (raise e) other = other

-- `VcsToolReq.to_semver`
unfoldable pub vcs_semver : Bool → Text → Result SemverError Text
unfolding separated run_together vcs_tail
vcs_semver from_req version =
    else_try (separated version >>= vcs_tail from_req) (run_together version >>= vcs_tail from_req)

unfoldable pub to_semver : ToolClass → Text → Bool → Result SemverError Text
unfolding verible_semver vivado_semver ninja_semver vcs_semver
to_semver vcs version from_req = vcs_semver from_req version
to_semver verible version from_req = verible_semver version
to_semver vivado version from_req = vivado_semver version
to_semver ninja version from_req = ninja_semver version
to_semver _ version from_req = ok version

vcs_runs : vcs_semver true (codes "2020.03-SP2") ≡ ok (codes "2020.03200")
unfolding vcs_semver
vcs_runs = refl

vcs_runs_together : vcs_semver true (codes "20200312-SP1") ≡ ok (codes "202003.2100")
unfolding vcs_semver
vcs_runs_together = refl

verible_runs : verible_semver (codes "v0.0-808-g1e17daa") ≡ ok (codes "0.0.808")
unfolding verible_semver
verible_runs = refl
