-- ===== src/Runner/Report/Plain/Counts.antt =====
-- The counts of the text report after a fresh run.
use commons_operator.Prelude.{
  ℕ, suc, ◌+◌, ◌≡◌, refl, sym, ap, subst, ◌⊎◌, inl, inr, Bool, true, false, List, [], ◌∷◌, arith,
  Text, text_eq, length, keep, Option-cases, if◌then◌else◌,
}
use commons_operator.Prelude.Dict.{Dict, lookup, values}
use commons_operator.Prelude.Dict.Distinct.{AllValues, insert-AllValues}
use commons_operator.Float.{Float}
use commons_operator.Args.{Args}
use commons_operator.Results.{TestResult, TestSummary, passed, flaky, failed}
use commons_operator.Runner.{Runner}
use commons_operator.Runner.Serial.{any_success}
use commons_operator.Runner.Summary.{
  final_status_of, summary_for, create_test_summary, initial_failure, process_one, process_results,
  process_all_test_results,
}
use commons_operator.Runner.Summary.Status.{retries_of, one_old, one_new}
use commons_operator.Runner.Report.Plain.{with_status}

module _ {F : Type 0} where
  abbrev pub IsUnpassed : TestSummary F → Type 0
  IsUnpassed s = (s.final_status ≡ flaky) ⊎ (s.final_status ≡ failed)

  -- Counted for one summary in front.
  counted :
      (s : TestSummary F) (ss : List (TestSummary F)) (n : ℕ)
      → IsUnpassed s
      → (length (keep (λ s. text_eq s.final_status passed) ss) ≡ 0)
        × (length (keep (λ s. text_eq s.final_status flaky) ss)
              + length (keep (λ s. text_eq s.final_status failed) ss)
            ≡ n)
      → (length (keep (λ s. text_eq s.final_status passed) (s ∷ ss)) ≡ 0)
        × (length (keep (λ s. text_eq s.final_status flaky) (s ∷ ss))
              + length (keep (λ s. text_eq s.final_status failed) (s ∷ ss))
            ≡ suc n)
  unfolding text_eq
  counted s ss n (inl e) h =
      let p : text_eq s.final_status passed ≡ false = ap (λ t. text_eq t passed) e in
      let q : text_eq s.final_status flaky ≡ true = ap (λ t. text_eq t flaky) e in
      let r : text_eq s.final_status failed ≡ false = ap (λ t. text_eq t failed) e in
      rw p (rw q (rw r (h.0, omega arith)))
  counted s ss n (inr e) h =
      let p : text_eq s.final_status passed ≡ false = ap (λ t. text_eq t passed) e in
      let q : text_eq s.final_status flaky ≡ false = ap (λ t. text_eq t flaky) e in
      let r : text_eq s.final_status failed ≡ true = ap (λ t. text_eq t failed) e in
      rw p (rw q (rw r (h.0, omega arith)))

  status_counts :
      (d : Dict (TestSummary F))
      → AllValues IsUnpassed d
      → (length (with_status passed d) ≡ 0)
        × (length (with_status flaky d) + length (with_status failed d) ≡ length d)
  unfolding with_status
  status_counts [] h = (refl, refl)
  status_counts ((name, s) ∷ d) h = counted s (values d) (length d) h.0 (status_counts d h.1)

module _ {F : Type 0} ⦃d : Float F⦄ (args : Args) where
  summary_for-IsUnpassed :
      (name : Text) (init : TestResult F) (rs : List (TestResult F))
      → init.success ≡ false
      → IsUnpassed (summary_for args name init rs)
  unfolding summary_for final_status_of
  summary_for-IsUnpassed name init rs e = named init.success (any_success rs) e
    where
      named :
          (a b : Bool)
          → a ≡ false
          → ((if a then passed else if b then flaky else failed) ≡ flaky)
            ⊎ ((if a then passed else if b then flaky else failed) ≡ failed)
      named true b h = cc h
      named false true h = inl refl
      named false false h = inr refl

  module _ (par ser : Dict (List (TestResult F))) where
    process_one-IsUnpassed :
        (name : Text) (s : Runner F)
        → AllValues IsUnpassed s.test_summaries
        → AllValues IsUnpassed (process_one args par ser name s).test_summaries
    unfolding create_test_summary
    process_one-IsUnpassed name s h = elim (Option-cases (lookup name s.test_summaries)) [
      | inl e ↦
          subst (λ (t : Runner F). AllValues IsUnpassed t.test_summaries)
            (sym (one_new args par ser name s e))
            (insert-AllValues IsUnpassed name _ s.test_summaries
              (summary_for-IsUnpassed name (initial_failure s.initial_result_log name)
                (retries_of args par ser name) refl)
              h)
      | inr (v, e) ↦
          subst (λ (t : Runner F). AllValues IsUnpassed t.test_summaries)
            (sym (one_old args par ser name s v e)) h
    ]

    process_results-IsUnpassed :
        (names : List Text) (s : Runner F)
        → AllValues IsUnpassed s.test_summaries
        → AllValues IsUnpassed (process_results args names par ser s).test_summaries
    unfolding process_results
    process_results-IsUnpassed [] s h = h
    process_results-IsUnpassed (name ∷ rest) s h =
        process_results-IsUnpassed rest _ (process_one-IsUnpassed name s h)

    -- Where a runner had no summaries before its results were processed, no test of the report passed at
    -- once, and the numbers of the flaky and of the failed ones add up to that of all.
    pub report_counts :
        (s : Runner F)
        → s.test_summaries ≡ []
        → (length (with_status passed (process_all_test_results args par ser s).test_summaries) ≡ 0)
          × (length (with_status flaky (process_all_test_results args par ser s).test_summaries)
                + length
                    (with_status failed (process_all_test_results args par ser s).test_summaries)
              ≡ length (process_all_test_results args par ser s).test_summaries)
    unfolding process_all_test_results
    report_counts s empty =
        status_counts (process_all_test_results args par ser s).test_summaries (
          process_results-IsUnpassed s.failed_tests s (subst (AllValues IsUnpassed) (sym empty) tt))
