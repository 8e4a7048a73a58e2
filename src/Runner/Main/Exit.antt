-- ===== src/Runner/Main/Exit.antt =====
-- The exit code of a run that retried its failed tests.
use commons_operator.Prelude.{
  ℕ, zero, suc, ◌≡◌, refl, sym, ap, subst, ◌∙◌, Bool, true, false, not, ◌||◌, List, [], ◌∷◌, arith,
  Text, text_eq, text_eq_refl, any, all, if◌then◌else◌, Bool-cases, Option-cases, inl, inr, ◌==◌,
}
use mathlib.Core.Path.{ap₂}
use commons_operator.Prelude.Dict.{Dict, lookup}
use commons_operator.Prelude.Dict.Distinct.{AllValues, insert-AllValues, AllValues-lookup}
use commons_operator.Float.{Float}
use commons_operator.Exec.{Result, ok, >>=-eq-ok, continue-pure}
use commons_operator.Args.{Args}
use commons_operator.World.{World}
use commons_operator.Results.{TestResult, TestSummary, failed, flaky, passed}
use commons_operator.Runner.{Runner}
use commons_operator.Runner.Report.{
  save_text_report, generate_and_save_final_report, save_detailed_json_report,
}
use commons_operator.Runner.Serial.{any_success}
use commons_operator.Runner.Summary.{
  summary_for, final_status_of, create_test_summary, initial_failure, process_one, process_results,
  process_all_test_results,
}
use commons_operator.Runner.Summary.Status.{
  retries_of, summarised, summary_of_test, one_old, one_new, lookup-process_all_test_results,
}
use commons_operator.Runner.Main.{failed_count, finalize_and_report}

module _ {F : Type 0} ⦃float : Float F⦄ where
  abbrev NotFailed : TestSummary F → Type 0
  NotFailed s = text_eq s.final_status failed ≡ false

  count_none : (d : Dict (TestSummary F)) → AllValues NotFailed d → failed_count d ≡ 0
  unfolding failed_count
  count_none [] h = refl
  count_none ((k, v) ∷ d) h = ground (arith, count_none d, h.0)

  none_counted : (d : Dict (TestSummary F)) → failed_count d ≡ 0 → AllValues NotFailed d
  unfolding failed_count
  none_counted [] h = tt
  none_counted ((k, v) ∷ d) h = elim (Bool-cases (text_eq v.final_status failed)) [
    | inl e ↦ ground (arith, e)
    | inr e ↦ (e, none_counted d (ground arith))
  ]

all_of :
    (p : Text → Bool) (names : List Text)
    → ((n : Text) → any (λ m. text_eq m n) names ≡ true → p n ≡ true)
    → all p names ≡ true
all_of p [] h = refl
all_of p (x ∷ xs) h =
    let first = h x (ap (λ b. b || any (λ m. text_eq m x) xs) (text_eq_refl x)) in
    rw first (all_of p xs (λ n e. h n (listed (text_eq x n) _ e)))
  where
    listed : (a b : Bool) → b ≡ true → (a || b) ≡ true
    listed true b e = refl
    listed false b e = e

status_named :
    (a b : Bool)
    → a ≡ false
    → text_eq (if a then passed else if b then flaky else failed) failed ≡ not b
unfolding text_eq
status_named false true h = refl
status_named false false h = refl
status_named true b h = cc

not_eq : (b : Bool) → not b ≡ false → b ≡ true
not_eq true h = refl
not_eq false h = cc

abbrev pub code : Bool → ℕ
code b = if b then 0 else 1

code_cases : (n : ℕ) (b : Bool) → (n ≡ 0 → b ≡ true) → (b ≡ true → n ≡ 0) → code (n == 0) ≡ code b
code_cases zero true f g = refl
code_cases zero false f g = cc (f refl)
code_cases (suc n) true f g = cc (g refl)
code_cases (suc n) false f g = ground arith

-- A pair of a value and a state gives the value.
same_value : {S A : Type 0} {x y : A} {s t : S} → ◌≡◌ {A = Result A × S} (ok x, s) (ok y, t) → x ≡ y
same_value h = cc (ap (λ p. p.0) h)

module _ {F : Type 0} ⦃d : Float F⦄ (args : Args) where
  status_lem :
      (name : Text) (init : TestResult F) (rs : List (TestResult F))
      → init.success ≡ false
      → text_eq (summary_for args name init rs).final_status failed ≡ not (any_success rs)
  unfolding summary_for final_status_of
  status_lem name init rs h = status_named init.success (any_success rs) h

  module _ (par ser : Dict (List (TestResult F))) where
    -- A failed test of which some retry passed.
    abbrev passes_later : Text → Bool
    passes_later name = any_success (retries_of args par ser name)

    process_one-NotFailed :
        (name : Text) (s : Runner F)
        → AllValues NotFailed s.test_summaries
        → passes_later name ≡ true
        → AllValues NotFailed (process_one args par ser name s).test_summaries
    unfolding create_test_summary
    process_one-NotFailed name s h p = elim (Option-cases (lookup name s.test_summaries)) [
      | inl e ↦
          subst (λ (t : Runner F). AllValues NotFailed t.test_summaries)
            (sym (one_new args par ser name s e))
            (insert-AllValues NotFailed name _ s.test_summaries
              (status_lem name (initial_failure s.initial_result_log name)
                  (retries_of args par ser name) refl
                ∙ ap not p)
              h)
      | inr (v, e) ↦
          subst (λ (t : Runner F). AllValues NotFailed t.test_summaries)
            (sym (one_old args par ser name s v e)) h
    ]

    process_results-NotFailed :
        (names : List Text) (s : Runner F)
        → AllValues NotFailed s.test_summaries
        → all passes_later names ≡ true
        → AllValues NotFailed (process_results args names par ser s).test_summaries
    unfolding process_results
    process_results-NotFailed [] s h p = h
    process_results-NotFailed (name ∷ rest) s h p = elim (Bool-cases (passes_later name)) [
      | inl e ↦
          process_results-NotFailed rest _ (process_one-NotFailed name s h e) (ground (arith, e))
      | inr e ↦ cc (e, p)
    ]

    all_none :
        (s : Runner F)
        → s.test_summaries ≡ []
        → all passes_later s.failed_tests ≡ true
        → AllValues NotFailed (process_all_test_results args par ser s).test_summaries
    unfolding process_all_test_results
    all_none s empty e =
        process_results-NotFailed s.failed_tests s (subst (AllValues NotFailed) (sym empty) tt) e

    -- Nothing is counted as failed exactly if each failed test passed in some retry.
    all_passed :
        (s : Runner F)
        → s.test_summaries ≡ []
        → failed_count (process_all_test_results args par ser s).test_summaries ≡ 0
        → all passes_later s.failed_tests ≡ true
    unfolding lookup
    all_passed s empty h = all_of passes_later s.failed_tests λ n listed.
        let after = process_all_test_results args par ser s in
        let found =
          lookup-process_all_test_results args par ser s n
          ∙ ap₂
              (λ o b.
                summarised args par ser o b (summary_of_test args par ser s.initial_result_log n))
              (ap (lookup n) empty) listed in
        let ok_status =
          AllValues-lookup NotFailed n (summary_of_test args par ser s.initial_result_log n)
            after.test_summaries (none_counted after.test_summaries h) found in
        not_eq _ (sym (status_lem n _ (retries_of args par ser n) refl) ∙ ok_status)

    exit_code :
        (s : Runner F)
        → s.test_summaries ≡ []
        → code (failed_count (process_all_test_results args par ser s).test_summaries == 0)
          ≡ code (all passes_later s.failed_tests)
    exit_code s empty =
        let after = (process_all_test_results args par ser s).test_summaries in
        code_cases (failed_count after) _ (all_passed s empty)
          (λ e. count_none after (all_none s empty e))

    report_summaries :
        (world : World F) (s : Runner F)
        → (generate_and_save_final_report world args s).1.test_summaries ≡ s.test_summaries
    unfolding generate_and_save_final_report save_detailed_json_report save_text_report
    report_summaries world s =
        let saved = save_detailed_json_report world args (save_text_report world args s) in
        ap (λ (t : Runner F). t.test_summaries) (continue-pure saved.0 tt saved.1)

  -- Where a runner had no summaries before its results were processed, and the final report returns:
  -- the exit code is 0 if each failed test passed in some retry, parallel or serial, and 1 otherwise.
  pub finalize_and_report_exit :
      (world : World F) (par ser : Dict (List (TestResult F))) (s s' : Runner F) (c : ℕ)
      → s.test_summaries ≡ []
      → finalize_and_report world args (process_all_test_results args par ser s) ≡ (ok c, s')
      → c ≡ code (all (λ name. any_success (retries_of args par ser name)) s.failed_tests)
  unfolding finalize_and_report
  finalize_and_report_exit world par ser s s' c empty h =
      let after = process_all_test_results args par ser s in
      let (a, t, e, k) = >>=-eq-ok (generate_and_save_final_report world args) _ after h in
      let same : t.test_summaries ≡ after.test_summaries =
        sym (ap (λ p. p.1.test_summaries) e) ∙ report_summaries par ser world after in
      sym (same_value k)
      ∙ ap (λ (d : Dict (TestSummary F)). code (failed_count d == 0)) same
      ∙ exit_code par ser s empty
