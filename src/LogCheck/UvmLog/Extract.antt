-- ===== src/LogCheck/UvmLog/Extract.antt =====
-- The extract of the log around the error line.
use emucpu.Prelude.{
  ℕ, suc, ◌+◌, ◌-◌, ◌≤◌, max, leb, List, [], ◌∷◌, arith, ◌≡◌, refl, take, drop, Bool-cases, inl,
  inr, zero,
}
use emucpu.Prelude.Text.{Text}
use emucpu.LogCheck.UvmLog.{extract, extract_line}

-- Lines with their numbers, from `n`.
abbrev pub numbered : ℕ → ℕ → List Text → List Text
numbered e n [] = []
numbered e n (line ∷ lines) = extract_line e n line ∷ numbered e (n + 1) lines

-- Past the window nothing is taken.
extract_past : (e n : ℕ) (lines : List Text) → e + 5 ≤ n → extract e n lines ≡ []
unfolding extract
extract_past e n [] h = refl
extract_past e n (line ∷ lines) h = ground (arith, extract_past e (n + 1) lines)

-- Inside the window all lines are taken up to its end.
extract_inside :
    (e n k : ℕ) (lines : List Text)
    → e ≤ n + 5
    → n + k ≡ e + 5
    → extract e n lines ≡ numbered e n (take k lines)
unfolding extract
extract_inside e n zero lines h w = extract_past e n lines (omega arith)
extract_inside e n (suc k) [] h w = refl
extract_inside e n (suc k) (line ∷ lines) h w = ground (arith, extract_inside e (n + 1) k lines)

-- Before the window lines are skipped.
extract_before :
    (e n j m : ℕ) (lines : List Text)
    → n + j ≡ m
    → m + 5 ≡ e
    → extract e n lines ≡ numbered e m (take 10 (drop j lines))
unfolding extract
extract_before e n zero m lines d w =
    let here : n ≡ m = omega arith in
    rw (← here) (extract_inside e n 10 lines (omega arith) (omega arith))
extract_before e n (suc j) m [] d w = refl
extract_before e n (suc j) m (line ∷ lines) d w = ground (arith, extract_before e (n + 1) j m lines)

-- The number of the first line of the extract for an error on line `e`.
abbrev pub first_shown : ℕ → ℕ
first_shown e = max 1 (e - 5)

-- The extract for an error on line `e` is the part of the log from five lines before it, or from
-- the first line, to four lines after it, each line with its number.
pub extract_window :
    (e : ℕ) (lines : List Text)
    → extract e 1 lines
      ≡ numbered e (first_shown e) (take (e + 5 - first_shown e) (drop (first_shown e - 1) lines))
extract_window e lines = elim (Bool-cases (leb e 6)) [
  | inl early ↦
      let one : first_shown e ≡ 1 = ground arith in
      rw one (extract_inside e 1 (e + 5 - 1) lines (ground arith) (ground arith))
  | inr late ↦
      let start : first_shown e ≡ e - 5 = ground arith in
      let ten : e + 5 - (e - 5) ≡ 10 = ground arith in
      rw (start, ten) (extract_before e 1 (e - 5 - 1) (e - 5) lines (ground arith) (ground arith))
]
