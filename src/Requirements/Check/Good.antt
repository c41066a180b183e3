-- ===== src/Requirements/Check/Good.antt =====
-- When `check` finds a tool good.
use emucpu.Prelude.{
  true, false, some, ok, raise, arith, ◌≡◌, ◌↔◌, refl, Result, Result-cases, Option-cases, inl, inr,
}
use emucpu.Prelude.Text.{Text}
use emucpu.Requirements.Semver.{to_semver}
use emucpu.Requirements.Check.{
  ToolReq, World, GetError, recent_enough, CheckMessage, get_version, check_version,
  check_installed, compare_versions, check,
}

module _ {ℓ} {V : Type ℓ} (w : World V) where
  -- Both versions are known, and the installed one is not older.
  abbrev pub HasVersion : ToolReq → Type ℓ
  HasVersion req =
      (required : Text) × (actual : Text) × (installed : Text) × (min_sv : V) × (actual_sv : V)
      × (to_semver req.tool_class req.min_version true ≡ ok required)
      × (w.parse required ≡ some min_sv)
      × (get_version w req ≡ ok actual)
      × (to_semver req.tool_class actual false ≡ ok installed)
      × (w.parse installed ≡ some actual_sv)
      × (w.older actual_sv min_sv ≡ false)

  abbrev pub IsGood : ToolReq → Type 0
  IsGood req = (msg : CheckMessage) × (check w req ≡ ok (true, msg))

  installed_good :
      (req : ToolReq) (min_sv : V) (actual : Text) {msg : CheckMessage}
      → check_installed w req min_sv actual ≡ (true, msg)
      → (installed : Text) × (actual_sv : V) × (to_semver req.tool_class actual false
          ≡ ok installed)
        × (w.parse installed ≡ some actual_sv)
        × (w.older actual_sv min_sv ≡ false)
  unfolding check_installed compare_versions
  installed_good req min_sv actual h = elim (Result-cases (to_semver req.tool_class actual false)) [
    | inr (e, bad) ↦ absurd (ground arith)
    | inl (installed, d) ↦ elim (Option-cases (w.parse installed)) [
      | inl bad ↦ absurd (ground arith)
      | inr (actual_sv, e) ↦ (installed, actual_sv, d, e, ground arith)
    ]
  ]

  version_good :
      (req : ToolReq) (min_sv : V) (got : Result GetError Text) {msg : CheckMessage}
      → check_version w req min_sv got ≡ ok (true, msg)
      → (actual : Text) × (got ≡ ok actual) × (check_installed w req min_sv actual ≡ (true, msg))
  unfolding check_version
  version_good req min_sv (ok actual) h = (actual, refl, ground arith)
  version_good req min_sv (raise _) h = absurd (ground arith)

  has_version : (req : ToolReq) → IsGood req → HasVersion req
  unfolding check
  has_version req (msg, h) = elim (Result-cases (to_semver req.tool_class req.min_version true)) [
    | inr (e, bad) ↦ absurd (ground arith)
    | inl (required, a) ↦ elim (Option-cases (w.parse required)) [
      | inl bad ↦ absurd (ground arith)
      | inr (min_sv, b) ↦
          let (actual, c, g) =
            version_good req min_sv (get_version w req) {msg = msg} (ground arith) in
          let (installed, actual_sv, d, e, f) = installed_good req min_sv actual {msg = msg} g in
          (required, actual, installed, min_sv, actual_sv, a, b, c, d, e, f)
    ]
  ]

  is_good : (req : ToolReq) → HasVersion req → IsGood req
  unfolding check check_version check_installed compare_versions
  is_good req (required, actual, installed, min_sv, actual_sv, a, b, c, d, e, f) =
      (recent_enough actual req.min_version, ground (arith, a, b, c, d, e, f))

  -- `check` finds a tool good exactly if the required and the installed version both convert to
  -- versions that `packaging` reads, the installed one is reported, and it is not older.
  pub check-HasVersion : (req : ToolReq) → IsGood req ↔ HasVersion req
  check-HasVersion req = (has_version req, is_good req)
