-- ===== src/Runner/Report/Plain/Listed.antt =====
-- The lines of the text report that name a test.
use commons_operator.Prelude.{
  any_left, any_right, ◌≡◌, ap, ◌∙◌, inl, inr, Bool, true, false, some, List, [], ◌++◌, Text, codes,
  text_eq, text_eq_refl, any, Bool-cases, if◌then◌else◌,
}
use mathlib.Core.Path.{ap₂}
use commons_operator.Prelude.Dict.{Dict, lookup}
use commons_operator.Float.{Float}
use commons_operator.Args.{Args}
use commons_operator.World.{World}
use commons_operator.Results.{TestResult, TestSummary, flaky, failed}
use commons_operator.Runner.{Runner}
use commons_operator.Runner.Serial.{any_success}
use commons_operator.Runner.Summary.{final_status_of, summary_for, process_all_test_results}
use commons_operator.Runner.Summary.Status.{
  retries_of, summary_of_test, summarised, lookup-process_all_test_results,
}
use commons_operator.Runner.Report.Plain.{
  with_status, flaky_section, failed_section, report_lines, summary_lines,
}
use commons_operator.Runner.Report.Plain.Sections.{
  has_line, mark, names_test, names_flaky, with_status-lookup, has_line-failed_lines,
  has_line-flaky_lines, has_line-failed_section, has_line-flaky_section,
}

module _ {F : Type 0} ⦃d : Float F⦄ (world : World F) (args : Args) where
  failed_reported :
      (s : Runner F) (line : Text)
      → has_line line (failed_section s.shell.manager (with_status failed s.test_summaries)) ≡ true
      → has_line line (report_lines world args s) ≡ true
  unfolding report_lines
  failed_reported s line h =
      let m = s.shell.manager in
      any_right is_it (summary_lines world (world.response s.shell.calls).now s) _ (
        any_right is_it (flaky_section m (with_status flaky s.test_summaries)) _
          (any_left is_it (failed_section m (with_status failed s.test_summaries)) _ h))
    where
      is_it : Text → Bool
      is_it l = text_eq l line

  flaky_reported :
      (s : Runner F) (line : Text)
      → has_line line (flaky_section s.shell.manager (with_status flaky s.test_summaries)) ≡ true
      → has_line line (report_lines world args s) ≡ true
  unfolding report_lines
  flaky_reported s line h =
      let m = s.shell.manager in
      any_right is_it (summary_lines world (world.response s.shell.calls).now s) _
        (any_left is_it (flaky_section m (with_status flaky s.test_summaries)) _ h)
    where
      is_it : Text → Bool
      is_it l = text_eq l line

  module _ (par ser : Dict (List (TestResult F))) (s : Runner F)
      (empty : s.test_summaries ≡ []) where
    abbrev after : Runner F
    after = process_all_test_results args par ser s

    status_is :
        (name : Text) (b : Bool)
        → any_success (retries_of args par ser name) ≡ b
        → (summary_of_test args par ser s.initial_result_log name).final_status
          ≡ (if b then flaky else failed)
    unfolding summary_for final_status_of
    status_is name b e = ap (λ c. if c then flaky else failed) e

    summary_is :
        (name : Text)
        → any (λ n. text_eq n name) s.failed_tests ≡ true
        → lookup name after.test_summaries
          ≡ some (summary_of_test args par ser s.initial_result_log name)
    unfolding lookup
    summary_is name listed =
        lookup-process_all_test_results args par ser s name
        ∙ ap₂
            (λ o b.
              summarised args par ser o b (summary_of_test args par ser s.initial_result_log name))
            (ap (lookup name) empty) listed

    -- Where a runner had no summaries before its results were processed: a test that failed the first
    -- run and passed a retry is named with a check mark in the lines of the text report, and one that
    -- passed none with a cross.
    pub report_lines-listed :
        (name : Text)
        → any (λ n. text_eq n name) s.failed_tests ≡ true
        → has_line
            (mark (any_success (retries_of args par ser name)) ++ name)
            (report_lines world args after)
          ≡ true
    unfolding summary_for
    report_lines-listed name listed =
        elim (Bool-cases (any_success (retries_of args par ser name))) [
          | inl recovered ↦
              let q : TestSummary F → Bool = names_flaky name in
              let m = after.shell.manager in
              let found =
                with_status-lookup q flaky name _ after.test_summaries (summary_is name listed)
                  (status_is name true recovered) (rw recovered (text_eq_refl name)) in
              rw recovered (
                flaky_reported after (codes "  ✓ " ++ name)
                  (has_line-flaky_section m _ _ (has_line-flaky_lines m name _ found)))
          | inr never ↦
              let q : TestSummary F → Bool = names_test name in
              let m = after.shell.manager in
              let found =
                with_status-lookup q failed name _ after.test_summaries (summary_is name listed)
                  (status_is name false never) (text_eq_refl name) in
              rw never (
                failed_reported after (codes "  ✗ " ++ name)
                  (has_line-failed_section m _ _ (has_line-failed_lines m name _ found)))
        ]
