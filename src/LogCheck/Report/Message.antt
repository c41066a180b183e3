-- ===== src/LogCheck/Report/Message.antt =====
-- What the text of one result ends with.
use emucpu.Prelude.{List, [], ◌∷◌, ◌++◌, some, true, arith, ◌≡◌, ◌≢◌, refl, ap, sym, ◌∙◌}
use mathlib.Core.List.{append_assoc}
use emucpu.Prelude.Dict.{Dict}
use emucpu.Prelude.Text.{Text, codes, join}
use emucpu.LogCheck.Modes.{TestRunResult}
use emucpu.LogCheck.Report.{last_info, info_lines, gen_test_run_result_text}

join-last :
    (sep : Text) (xs : List Text) (y : Text)
    → (front : Text) × (join sep (xs ++ y ∷ []) ≡ front ++ y)
unfolding join
join-last sep [] y = ([], refl)
join-last sep (x ∷ []) y = (x ++ sep, refl)
join-last sep (x ∷ z ∷ xs) y =
    let (front, e) = join-last sep (z ∷ xs) y in
    (x ++ sep ++ front, ap (λ t. (x ++ sep) ++ t) e ∙ sym (append_assoc (x ++ sep) front y))

-- The text about a result that did not pass and has a failure message ends with that message and
-- a newline, whatever paths are shown.
pub gen_test_run_result_text-message :
    (lesskeys : Dict Text) (trr : TestRunResult) {message : Text}
    → trr.passed ≢ some true
    → trr.failure_message ≡ some message
    → (front : Text) × (gen_test_run_result_text lesskeys trr ≡ front ++ message ++ codes "\n")
unfolding gen_test_run_result_text
gen_test_run_result_text-message lesskeys trr {message} n h =
    let (front, e) = join-last (codes "\n") (info_lines lesskeys trr) (last_info trr) in
    let shown : last_info trr ≡ message = ground arith in
    (codes "\n" ++ front, ap (λ t. codes "\n" ++ t ++ codes "\n") (e ∙ ap (λ t. front ++ t) shown))
