-- ===== src/Runner/Summary/Status.antt =====
-- What `process_all_test_results` leaves in the dictionary of summaries.
use commons_operator.Prelude.{
  ◌≡◌, refl, sym, ap, subst, ◌∙◌, text_eq_refl, Bool, true, false, ◌||◌, Option, none, some, List,
  [], ◌∷◌, ◌++◌, Text, text_eq, text_eq-cases, any, if◌then◌else◌, Option-cases, inl, inr,
}
use mathlib.Core.Path.{ap₂}
use commons_operator.Prelude.Dict.{Dict, lookup, lookup-insert_self, lookup-insert_ne}
use commons_operator.Float.{Float}
use commons_operator.Args.{Args}
use commons_operator.Results.{TestResult, TestSummary}
use commons_operator.Runner.{Runner}
use commons_operator.Runner.Serial.{results_for}
use commons_operator.Runner.Summary.{
  summary_for, create_test_summary, initial_failure, process_one, process_results,
  process_all_test_results,
}

module _ {F : Type 0} ⦃d : Float F⦄ (args : Args) (par ser : Dict (List (TestResult F))) where
  -- All the retries of a test, the parallel ones first.
  abbrev pub retries_of : Text → List (TestResult F)
  retries_of name = results_for name par ++ results_for name ser

  abbrev pub summary_of_test : Option Text → Text → TestSummary F
  summary_of_test log name = summary_for args name (initial_failure log name) (retries_of name)

  -- The summary of a test that was there stays; one that was not is there if the test is listed.
  abbrev pub summarised : Option (TestSummary F) → Bool → TestSummary F → Option (TestSummary F)
  summarised (some old) listed new = some old
  summarised none true new = some new
  summarised none false new = none

  unlisted : (o : Option (TestSummary F)) (new : TestSummary F) → o ≡ summarised o false new
  unlisted none new = refl
  unlisted (some old) new = refl

  summarised_twice :
      (o : Option (TestSummary F)) (a b : Bool) (new : TestSummary F)
      → summarised (summarised o a new) b new ≡ summarised o (a || b) new
  summarised_twice none true b new = refl
  summarised_twice none false b new = refl
  summarised_twice (some old) a b new = refl

  module _ (name : Text) (s : Runner F) where
    kept_lookup :
        (v : TestSummary F)
        → lookup name s.test_summaries ≡ some v
        → (j : Text)
        → lookup j s.test_summaries
          ≡ summarised
              (lookup j s.test_summaries)
              (text_eq name j)
              (summary_of_test s.initial_result_log j)
    kept_lookup v e j = elim (text_eq-cases name j) [
      | inl (t, same) ↦
          subst
            (λ x.
              lookup x s.test_summaries
              ≡ summarised (lookup x s.test_summaries) (text_eq name x)
                  (summary_of_test s.initial_result_log x))
            same
            (e
              ∙ sym (
                  ap
                    (λ o.
                      summarised o (text_eq name name) (summary_of_test s.initial_result_log name))
                    e))
      | inr (f, other) ↦
          unlisted (lookup j s.test_summaries) _
          ∙ ap
              (λ b.
                summarised (lookup j s.test_summaries) b (summary_of_test s.initial_result_log j))
              (sym f)
    ]

    abbrev pub created : Runner F
    created =
        create_test_summary args name (initial_failure s.initial_result_log name) (retries_of name)
          s

    pub one_old :
        (v : TestSummary F)
        → lookup name s.test_summaries ≡ some v
        → process_one args par ser name s ≡ s
    unfolding process_one
    one_old v e = ap (λ o. if (elim o [ none ↦ false | some w ↦ true ]) then s else created) e

    pub one_new : lookup name s.test_summaries ≡ none → process_one args par ser name s ≡ created
    unfolding process_one
    one_new e = ap (λ o. if (elim o [ none ↦ false | some w ↦ true ]) then s else created) e

    created_lookup :
        (j : Text)
        → lookup name s.test_summaries ≡ none
        → lookup j created.test_summaries
          ≡ summarised
              (lookup j s.test_summaries)
              (text_eq name j)
              (summary_of_test s.initial_result_log j)
    unfolding create_test_summary
    created_lookup j e = elim (text_eq-cases name j) [
      | inl (t, same) ↦
          subst
            (λ x.
              lookup x created.test_summaries
              ≡ summarised (lookup x s.test_summaries) (text_eq name x)
                  (summary_of_test s.initial_result_log x))
            same
            (lookup-insert_self name (summary_of_test s.initial_result_log name) s.test_summaries
              ∙ sym (
                  ap₂ (λ o b. summarised o b (summary_of_test s.initial_result_log name)) e
                    (text_eq_refl name)))
      | inr (f, other) ↦
          lookup-insert_ne name j _ s.test_summaries other
          ∙ unlisted (lookup j s.test_summaries) _
          ∙ ap
              (λ b.
                summarised (lookup j s.test_summaries) b (summary_of_test s.initial_result_log j))
              (sym f)
    ]

    one_lookup :
        (j : Text)
        → lookup j (process_one args par ser name s).test_summaries
          ≡ summarised
              (lookup j s.test_summaries)
              (text_eq name j)
              (summary_of_test s.initial_result_log j)
    one_lookup j = elim (Option-cases (lookup name s.test_summaries)) [
      | inl e ↦ ap (λ (t : Runner F). lookup j t.test_summaries) (one_new e) ∙ created_lookup j e
      | inr (v, e) ↦
          ap (λ (t : Runner F). lookup j t.test_summaries) (one_old v e) ∙ kept_lookup v e j
    ]

    one_log : (process_one args par ser name s).initial_result_log ≡ s.initial_result_log
    unfolding create_test_summary
    one_log = elim (Option-cases (lookup name s.test_summaries)) [
      | inl e ↦ ap (λ (t : Runner F). t.initial_result_log) (one_new e)
      | inr (v, e) ↦ ap (λ (t : Runner F). t.initial_result_log) (one_old v e)
    ]

  -- Whatever is listed, of each test: its summary is the one that was there, or the new one if the
  -- test is listed, or none.
  lookup-process_results :
      (names : List Text) (s : Runner F) (j : Text)
      → lookup j (process_results args names par ser s).test_summaries
        ≡ summarised
            (lookup j s.test_summaries)
            (any (λ n. text_eq n j) names)
            (summary_of_test s.initial_result_log j)
  unfolding process_results
  lookup-process_results [] s j = unlisted (lookup j s.test_summaries) _
  lookup-process_results (name ∷ rest) s j =
      let s' = process_one args par ser name s in
      lookup-process_results rest s' j
      ∙ ap₂ (λ o log. summarised o (any (λ n. text_eq n j) rest) (summary_of_test log j))
          (one_lookup name s j) (one_log name s)
      ∙ summarised_twice (lookup j s.test_summaries) (text_eq name j) (any (λ n. text_eq n j) rest)
          _

  -- After all failed tests are processed, every one of them has a summary: the one that it had
  -- before, or one made of its retries, the parallel ones first. No other test has got one.
  pub lookup-process_all_test_results :
      (s : Runner F) (j : Text)
      → lookup j (process_all_test_results args par ser s).test_summaries
        ≡ summarised
            (lookup j s.test_summaries)
            (any (λ n. text_eq n j) s.failed_tests)
            (summary_of_test s.initial_result_log j)
  unfolding process_all_test_results
  lookup-process_all_test_results s j = lookup-process_results s.failed_tests s j
