-- ===== src/Runner/Main/Total.antt =====
-- The end of a run returns, with its exit code.
use commons_operator.Prelude.{
  ◌≡◌, refl, sym, ap, subst, ◌∙◌, List, [], ◌∷◌, Text, all, codes, Option-cases, inl, inr,
}
use commons_operator.Prelude.Dict.{Dict, lookup}
use commons_operator.Float.{Float}
use commons_operator.Exec.{ok, Returns, Returns-value, Returns-continue}
use commons_operator.Args.{Args}
use commons_operator.World.{World}
use commons_operator.Manager.{child}
use commons_operator.Results.{TestResult}
use commons_operator.Executor.Run.{Shell}
use commons_operator.Executor.Run.Total.{
  save_text-IsCreatable, IsCreatable, lift-Returns, save_json-Returns,
}
use commons_operator.Runner.{Runner, with_manager}
use commons_operator.Runner.Report.{
  save_text_report, report_data, save_detailed_json_report, generate_and_save_final_report,
}
use commons_operator.Runner.Serial.{any_success}
use commons_operator.Runner.Serial.Total.{HasFiles}
use commons_operator.Runner.Summary.{
  create_test_summary, process_one, process_results, process_all_test_results,
}
use commons_operator.Runner.Summary.Status.{retries_of, one_old, one_new}
use commons_operator.Runner.Main.{finalize_and_report}
use commons_operator.Runner.Main.Exit.{code, finalize_and_report_exit}

module _ {F : Type 0} ⦃d : Float F⦄ (args : Args) where
  module _ (par ser : Dict (List (TestResult F))) where
    process_one_shell :
        (name : Text) (s : Runner F) → (process_one args par ser name s).shell ≡ s.shell
    unfolding create_test_summary
    process_one_shell name s = elim (Option-cases (lookup name s.test_summaries)) [
      | inl e ↦ ap (λ (t : Runner F). t.shell) (one_new args par ser name s e)
      | inr (v, e) ↦ ap (λ (t : Runner F). t.shell) (one_old args par ser name s v e)
    ]

    process_results_shell :
        (names : List Text) (s : Runner F) → (process_results args names par ser s).shell ≡ s.shell
    unfolding process_results
    process_results_shell [] s = refl
    process_results_shell (name ∷ rest) s =
        process_results_shell rest (process_one args par ser name s) ∙ process_one_shell name s

    pub processed_shell : (s : Runner F) → (process_all_test_results args par ser s).shell ≡ s.shell
    unfolding process_all_test_results
    processed_shell s = process_results_shell s.failed_tests s

    processed-HasFiles :
        (s : Runner F) → HasFiles s → HasFiles (process_all_test_results args par ser s)
    unfolding process_all_test_results
    processed-HasFiles s h =
        subst (λ (sh : Shell F). IsCreatable sh.manager.disk)
          (sym (process_results_shell s.failed_tests s)) h

  finalize-Returns :
      (world : World F) (s : Runner F)
      → HasFiles s
      → Returns (λ c t. HasFiles t) (finalize_and_report world args s)
  unfolding finalize_and_report generate_and_save_final_report save_detailed_json_report
      save_text_report
  finalize-Returns world s0 h0 =
      let s = save_text_report world args s0 in
      let h = save_text-IsCreatable _ _ s0.shell.manager.disk h0 in
      let m = s.shell.manager in
      let report_value = report_data (world.response s.shell.calls).now args s in
      let saved = save_detailed_json_report world args s in
      let report = generate_and_save_final_report world args s0 in
      let written =
        lift-Returns IsCreatable HasFiles (λ disk. with_manager s (record m { disk = disk }))
          (λ disk h. h) _
          (save_json-Returns (child m.output_dir (codes "detailed_report.json")) report_value m.disk
            h) in
      Returns-continue (λ b t. HasFiles t) (λ c t. HasFiles t) report.0 _ report.1
        (Returns-continue (λ b t. HasFiles t) (λ b t. HasFiles t) saved.0 _ saved.1 written
          (λ b t h. h))
        (λ b t h. h)

  -- Where a runner has no summaries and its files can be created, the run ends, once its results are
  -- processed: the exit code is 0 if each failed test passed in some retry, parallel or serial, and 1
  -- otherwise.
  pub finalize_and_report_total :
      (world : World F) (par ser : Dict (List (TestResult F))) (s : Runner F)
      → s.test_summaries ≡ []
      → HasFiles s
      → (finalize_and_report world args (process_all_test_results args par ser s)).0
        ≡ ok (code (all (λ name. any_success (retries_of args par ser name)) s.failed_tests))
  finalize_and_report_total world par ser s empty h =
      let after = process_all_test_results args par ser s in
      let (c, t, e, files) =
        Returns-value (λ c t. HasFiles t) (finalize_and_report world args after)
          (finalize-Returns world after (processed-HasFiles par ser s h)) in
      ap (λ p. p.0) e ∙ ap (λ n. ok n) (finalize_and_report_exit args world par ser s t c empty e)
